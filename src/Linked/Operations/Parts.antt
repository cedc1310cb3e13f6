-- ===== src/Linked/Operations/Parts.antt =====
-- The steps that the operations of v1.0.0/inifile.c share, when they return 0.
use ini.Base.{
  Bool, List, Option, Option-cases, arith, false, inl, inr, none, refl, some, true, ℕ, ◌≡◌,
}
use ini.Linked.{IniFile, IniParameter, LineCode, MethodType, Outcome, done, undefined, ◌>>=◌}
use ini.Linked.Chars.{find_ini_file_node}
use ini.Linked.Check.{ini_parameter_check}
use ini.Linked.Operations.{
  Reply, System, after_write, chars, checked, key_place, or_reply_1, reply_0, reply_1, with_key,
  with_section, write_back,
}
use ini.Linked.Read.{Files}
use ini.Linked.Write.{Written, update_ini_file}

pub checked-reply_0 :
    (s : System) (p : IniParameter) (type : MethodType) (k : IniFile → Outcome (Reply × System))
    {s' : System}
    → checked s p type k ≡ done (reply_0, s')
    → (f : IniFile) × (s.ini ≡ some f)
      × (ini_parameter_check p type ≡ done true)
      × (k f ≡ done (reply_0, s'))
unfolding checked
checked-reply_0 s p type k {s'} h = by_ini s.ini h
  where
    by_good :
        (f : IniFile) (o : Outcome Bool)
        → (o >>= λ good. or_reply_1 s good (k f)) ≡ done (reply_0, s')
        → (o ≡ done true) × (k f ≡ done (reply_0, s'))
    by_good f (done true) h = (refl, h)
    by_good f (done false) h = absurd cc
    by_good f undefined h = absurd cc

    by_ini :
        (o : Option IniFile)
        → ◌≡◌ {A = Outcome (Reply × System)}
            (elim o [
              | none ↦ done (reply_1, s)
              | some f ↦ ini_parameter_check p type >>= λ good. or_reply_1 s good (k f)
            ])
            (done (reply_0, s'))
        → (f : IniFile) × (o ≡ some f)
          × (ini_parameter_check p type ≡ done true)
          × (k f ≡ done (reply_0, s'))
    by_ini none h = absurd cc
    by_ini (some f) h = let (e, q) = by_good f (ini_parameter_check p type) h in (f, refl, e, q)

pub with_section-reply_0 :
    (s : System) (f : IniFile) (p : IniParameter) (k : ℕ → Outcome (Reply × System)) {s' : System}
    → with_section s f p k ≡ done (reply_0, s')
    → (i : ℕ) × (find_ini_file_node f (chars p.section) ≡ some i) × (k i ≡ done (reply_0, s'))
with_section-reply_0 s f p k h = elim (Option-cases (find_ini_file_node f (chars p.section))) [
  | inl e ↦ absurd (ground arith)
  | inr (i, e) ↦ (i, e, ground arith)
]

pub with_key-reply_0 :
    (s : System) (f : IniFile) (p : IniParameter) (i : ℕ) (k : ℕ → Outcome (Reply × System))
    {s' : System}
    → with_key s f p i k ≡ done (reply_0, s')
    → (j : ℕ) × (key_place f i (chars p.key) ≡ some j) × (k j ≡ done (reply_0, s'))
with_key-reply_0 s f p i k h = elim (Option-cases (key_place f i (chars p.key))) [
  | inl e ↦ absurd (ground arith)
  | inr (j, e) ↦ (j, e, ground arith)
]

pub write_back-ini :
    (s : System) (f : IniFile) {r : Reply} {s' : System}
    → write_back s f ≡ done (r, s')
    → s'.ini ≡ some f
unfolding write_back
write_back-ini s f h = by_outcome (update_ini_file f s.files s.writes) h
  where
    by_outcome :
        {r : Reply} {s' : System} (o : Outcome (Files × List Written × LineCode))
        → (o >>= λ r. done (after_write s f r)) ≡ done (r, s')
        → s'.ini ≡ some f
    by_outcome (done (a, b, c)) h = ground arith
    by_outcome undefined h = absurd cc
