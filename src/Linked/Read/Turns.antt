-- ===== src/Linked/Read/Turns.antt =====
-- The turns of the `fgets` loop of `readIniFile`, v1.0.0/inifile.c.
use mathlib.Core.List.{append_assoc}
use ini.Base.{
  Bytes, [], ap, arith, false, length, length-append, refl, subst, suc, zero, ℕ, ◌++◌, ◌+◌, ◌==◌,
  ◌∙◌, ◌∷◌, ◌≡◌, ◌≤◌,
}
use ini.Linked.{IniFile, LineCode, Outcome, done, is_negative, ◌>>=◌}
use ini.Linked.Read.{init_line_context, or_stop, read_ini_loop}
use ini.Text.{fgets, newline_sign}
use ini.Text.Laws.{Without}

fgets_line :
    (n : ℕ) (body rest : Bytes)
    → Without newline_sign body
    → length body ≤ n
    → fgets (suc n) (body ++ (newline_sign ∷ rest)) ≡ (body ++ (newline_sign ∷ []), rest)
unfolding fgets
fgets_line n [] rest w l = refl
fgets_line zero (c ∷ body) rest w l = absurd (omega arith)
fgets_line (suc n) (c ∷ body) rest w l =
    let other : (c == newline_sign) ≡ false = ground arith in
    rw (other, fgets_line n body rest w.1 (omega arith)) refl

-- With steps enough, reading the text takes the file from the first state to the second, whatever
-- follows.
abbrev pub Leads : IniFile → Bytes → IniFile → Type 0
Leads f text f' =
    (n : ℕ) (rest : Bytes)
    → length (text ++ rest) ≤ n
    → (m : ℕ) × (length rest ≤ m) × (read_ini_loop n (text ++ rest) f ≡ read_ini_loop m rest f')

pub Leads-nil : (f : IniFile) → Leads f [] f
Leads-nil f n rest l = (n, l, refl)

pub Leads-append : (f g h : IniFile) (s t : Bytes) → Leads f s g → Leads g t h → Leads f (s ++ t) h
Leads-append f g h s t a b n rest l =
    let shift = append_assoc s t rest in
    let (m, l1, e) = a n (t ++ rest) (subst (λ x. length x ≤ n) shift l) in
    let (k, l2, e') = b m rest l1 in (k, l2, ap (λ x. read_ini_loop n x f) shift ∙ (e ∙ e'))

abbrev after_line : ℕ → Bytes → Outcome (IniFile × LineCode) → Outcome (IniFile × LineCode)
after_line n rest o = o >>= λ r. or_stop r (λ f'. read_ini_loop n rest f')

read_ini_loop_turn :
    (n c : ℕ) (s : Bytes) (f : IniFile)
    → read_ini_loop (suc n) (c ∷ s) f
      ≡ after_line n (fgets 127 (c ∷ s)).1 (init_line_context f (fgets 127 (c ∷ s)).0)
unfolding read_ini_loop
read_ini_loop_turn n c s f = refl

after_line_good :
    (n : ℕ) (rest : Bytes) (f : IniFile) (code : LineCode)
    → is_negative code ≡ false
    → after_line n rest (done (f, code)) ≡ read_ini_loop n rest f
after_line_good n rest f code good = rw good refl

turn :
    (n : ℕ) (f f' : IniFile) (code : LineCode) (body rest : Bytes)
    → Without newline_sign body
    → length body ≤ 126
    → init_line_context f (body ++ (newline_sign ∷ [])) ≡ done (f', code)
    → is_negative code ≡ false
    → read_ini_loop (suc n) (body ++ (newline_sign ∷ rest)) f ≡ read_ini_loop n rest f'
turn n f f' code body rest w l e good = by_head body (fgets_line 126 body rest w l) e
  where
    by_head :
        (b : Bytes)
        → fgets 127 (b ++ (newline_sign ∷ rest)) ≡ (b ++ (newline_sign ∷ []), rest)
        → init_line_context f (b ++ (newline_sign ∷ [])) ≡ done (f', code)
        → read_ini_loop (suc n) (b ++ (newline_sign ∷ rest)) f ≡ read_ini_loop n rest f'
    by_head [] q e =
        read_ini_loop_turn n newline_sign rest f
        ∙ (ap (λ (x : Bytes × Bytes). after_line n x.1 (init_line_context f x.0)) q
            ∙ (ap (after_line n rest) e ∙ after_line_good n rest f' code good))
    by_head (c ∷ b) q e =
        read_ini_loop_turn n c (b ++ (newline_sign ∷ rest)) f
        ∙ (ap (λ (x : Bytes × Bytes). after_line n x.1 (init_line_context f x.0)) q
            ∙ (ap (after_line n rest) e ∙ after_line_good n rest f' code good))

-- A line that is read without an error.
pub Leads-line :
    (f f' : IniFile) (code : LineCode) (body : Bytes)
    → Without newline_sign body
    → length body ≤ 126
    → init_line_context f (body ++ (newline_sign ∷ [])) ≡ done (f', code)
    → is_negative code ≡ false
    → Leads f (body ++ (newline_sign ∷ [])) f'
Leads-line f f' code body w l e good n rest h =
    let shift = append_assoc body (newline_sign ∷ []) rest in
    let long : length body + suc (length rest) ≤ n =
      omega (arith, h, ap length shift, length-append body (newline_sign ∷ rest)) in
    by_fuel n long (ap (λ x. read_ini_loop n x f) shift)
  where
    by_fuel :
        (n : ℕ)
        → length body + suc (length rest) ≤ n
        → read_ini_loop n ((body ++ (newline_sign ∷ [])) ++ rest) f
          ≡ read_ini_loop n (body ++ (newline_sign ∷ rest)) f
        → (m : ℕ) × (length rest ≤ m)
          × (read_ini_loop n ((body ++ (newline_sign ∷ [])) ++ rest) f ≡ read_ini_loop m rest f')
    by_fuel zero l2 e2 = absurd (omega arith)
    by_fuel (suc k) l2 e2 = (k, omega arith, e2 ∙ turn k f f' code body rest w l e good)
