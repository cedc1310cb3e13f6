-- ===== src/Scan/Ports/Laws.antt =====
-- What `get_ports` and `get_ports_range` of portscan/ps_setup.c put in the list.
use ini.Base.{
  All, Bool, Bool-cases, Bytes, List, Option, Option-cases, [], arith, false, if◌then◌else◌, inl,
  inr, leb, length, ltb, none, refl, some, suc, true, zero, ℕ, ◌&&◌, ◌+◌, ◌-◌, ◌<◌, ◌==◌, ◌||◌, ◌∙◌,
  ◌∷◌, ◌≡◌, ◌≤◌,
}
use ini.Scan.{Setup, max_ports, push_port}
use ini.Scan.Ports.{
  after_dash, atoi, get_ports, get_ports_range, int_max, push_between, push_range, push_words,
  tokens,
}

-- All ports are from 1 to 1024, and they are counted.
pub record IsCounted (s : Setup) : Type 0 where
  pub in_range : All (λ p. (1 ≤ p) × (p ≤ max_ports)) s.port_list
  pub count : s.port_list_count ≡ length s.port_list

push_port-IsCounted : (n : ℕ) (s : Setup) → IsCounted s → IsCounted (push_port n s)
unfolding push_port
push_port-IsCounted n s v = elim (Bool-cases (ltb max_ports n || ltb n 1)) [
  | inl e ↦ rw (push_port, e) v
  | inr e ↦
      rw (push_port, e)
        (record {
          in_range = ((ground arith, ground arith), v.in_range);
          count = omega (arith, v.count);
        })
]

push_range-IsCounted : (n i : ℕ) (s : Setup) → IsCounted s → IsCounted (push_range n i s)
unfolding push_range
push_range-IsCounted zero i s v = v
push_range-IsCounted (suc n) i s v =
    push_range-IsCounted n (i + 1) (push_port i s) (push_port-IsCounted i s v)

-- Where the function returns.
abbrev pub IfSome : (Setup → Type 0) → Option Setup → Type 0
IfSome P none = Unit
IfSome P (some s) = P s

push_between-IsCounted : (a b : ℕ) (s : Setup) → IsCounted s → IfSome IsCounted (push_between a b s)
unfolding push_between
push_between-IsCounted a b s v = elim (Bool-cases (leb int_max b)) [
  | inl e ↦ rw (push_between, e) tt
  | inr e ↦ rw (push_between, e) (push_range-IsCounted (b + 1 - a) a s v)
]

get_ports_range-IsCounted :
    (word : Bytes) (s : Setup) → IsCounted s → IfSome IsCounted (get_ports_range word s)
unfolding get_ports_range
get_ports_range-IsCounted word s v = elim (Option-cases (after_dash word)) [
  | inl e ↦ rw (get_ports_range, e) tt
  | inr (pos, e) ↦ elim (Option-cases (atoi word)) [
    | inl f ↦ rw (get_ports_range, e) (rw (get_ports_range, f) tt)
    | inr (a, f) ↦ elim (Option-cases (atoi pos)) [
      | inl g ↦ rw (get_ports_range, e) (rw (get_ports_range, f) (rw g tt))
      | inr (b, g) ↦
          rw (get_ports_range, e) (rw (get_ports_range, f) (rw g (push_between-IsCounted a b s v)))
    ]
  ]
]

IfSome-then :
    (o : Option Setup) (k : Setup → Option Setup)
    → IfSome IsCounted o
    → ((s : Setup) → IsCounted s → IfSome IsCounted (k s))
    → IfSome IsCounted (elim o [ none ↦ none | some s ↦ k s ])
IfSome-then none k i h = tt
IfSome-then (some s) k i h = h s i

push_words-IsCounted :
    (ws : List Bytes) (s : Setup) → IsCounted s → IfSome IsCounted (push_words ws s)
unfolding push_words
push_words-IsCounted [] s v = v
push_words-IsCounted (w ∷ ws) s v = elim (Option-cases (after_dash w)) [
  | inl e ↦ elim (Option-cases (atoi w)) [
    | inl f ↦ rw (push_words, e) (rw f tt)
    | inr (n, f) ↦
        rw (push_words, e)
          (rw f (push_words-IsCounted ws (push_port n s) (push_port-IsCounted n s v)))
  ]
  | inr (pos, e) ↦
      rw (push_words, e)
        (IfSome-then (get_ports_range w s) (push_words ws) (get_ports_range-IsCounted w s v)
          (push_words-IsCounted ws))
]

pub get_ports-IsCounted :
    (port_args : Bytes) (s : Setup) → IsCounted s → IfSome IsCounted (get_ports port_args s)
unfolding get_ports
get_ports-IsCounted port_args s v = push_words-IsCounted (tokens b',' [] port_args) s v

-- Whether a port is in a list.
unfoldable pub has : ℕ → List ℕ → Bool
has p [] = false
has p (x ∷ xs) = let rest = has p xs in if x == p then true else rest

abbrev pub between : ℕ → ℕ → ℕ → Bool
between a b p = leb a p && leb p b

push_port-has :
    (n p : ℕ) (s : Setup)
    → has p (push_port n s).port_list ≡ (has p s.port_list || (between 1 max_ports p && (p == n)))
unfolding push_port has
push_port-has n p s = ground arith

push_range-has :
    (n i p : ℕ) (s : Setup)
    → has p (push_range n i s).port_list
      ≡ (has p s.port_list || (between 1 max_ports p && (leb i p && ltb p (i + n))))
unfolding push_range
push_range-has zero i p s = ground arith
push_range-has (suc n) i p s =
    ground (arith, push_range-has n (i + 1) p (push_port i s), push_port-has i p s)

-- A word with a dash whose two numbers are `int`s, the second below INT_MAX: the range is put in
-- the list, and that is, beside the ports that were there, exactly those from the first to the
-- second number that are from 1 to 1024.
pub get_ports_range-has :
    (word : Bytes) (s : Setup) {pos : Bytes} {a b : ℕ}
    → after_dash word ≡ some pos
    → atoi word ≡ some a
    → atoi pos ≡ some b
    → b < int_max
    → (s' : Setup) × (get_ports_range word s ≡ some s')
      × ((p : ℕ)
          → has p s'.port_list ≡ (has p s.port_list || (between 1 max_ports p && between a b p)))
unfolding get_ports_range push_between
get_ports_range-has word s {pos} {a} {b} e f g l =
    let inside : leb int_max b ≡ false = ground arith in
    (
      push_range (b + 1 - a) a s,
      rw (get_ports_range, e) (rw (get_ports_range, f) (rw g (rw (push_between, inside) refl))),
      λ p. push_range-has (b + 1 - a) a p s ∙ same_ports a b p (has p s.port_list),
    )
  where
    same_ports :
        (a b p : ℕ) (old : Bool)
        → (old || (between 1 max_ports p && (leb a p && ltb p (a + (b + 1 - a)))))
          ≡ (old || (between 1 max_ports p && between a b p))
    same_ports a b p old = ground arith
