-- ===== src/Tests/Operations.antt =====
-- The theorems on the operations, in a memory with one section and two keys.
use ini.Api.{keyval_of, section_of}
use ini.Api.Appends.{appends-IsChain}
use ini.Api.Removes.{removes-IsChain}
use ini.Api.Sections.{append_section, unlink_section}
use ini.Api.Values.{append_keyval, get_value_ofkey, unlink_keyval, update_value_ofkey}
use ini.Api.Values.UpdateGet.{NamesBefore, update_value_ofkey-get}
use ini.Base.{
  Bool-cases, Option, [], arith, if◌then◌else◌, inl, inr, none, refl, some, subst, true, ◌==◌, ◌∷◌,
  ◌≡◌,
}
use ini.Load.{link_keyval, link_section}
use ini.Memory.{CharPtr, World, inti, nodes, ok, ◌>>=◌}
use ini.Pool.{read_from, string_at, text_of}
use ini.Pool.Fits.{IsTidy, LiesBefore}
use ini.Store.{
  find_inifile_section, find_keyvalue_unsect, find_node, keyval_links, length_or, same_name,
  section_links,
}
use ini.Store.Find.{IsChain}
use ini.Tests.Runs.{codes, empty_keyval, empty_section, on_key, start}
use ini.Text.{memcmp, str_int_len}

-- Section "ab" with the keys "x" and "y"; nothing else is stored.
abbrev pub listed : World
listed = record start {
  mem = record (start.mem) {
    ready = true;
    pool = λ i.
        if i == 0
        then b'a'
        else if i == 1
        then b'b'
        else if i == 3
        then b'x'
        else if i == 5
        then b'y'
        else 0;
    current = record { half = inti; off = 7 };
    curr_len = 7;
  };
  files = λ i. record { used = true; name = none; head = some 0 };
  sections = λ i.
      if i == 0
      then record {
        used = true;
        sec = some (record { half = inti; off = 0 });
        head = some 0;
        pre = none;
        last = none;
      }
      else empty_section;
  keyvals = λ i.
      if i == 0
      then record {
        used = true;
        key = some (record { half = inti; off = 3 });
        value = none;
        pre = none;
        last = some 1;
      }
      else if i == 1
      then record {
        used = true;
        key = some (record { half = inti; off = 5 });
        value = none;
        pre = some 0;
        last = none;
      }
      else empty_keyval;
}

listed-IsTidy : IsTidy listed.mem
listed-IsTidy = record { counted = omega arith; clean = λ i l. ground arith }

before_at :
    (o : Option CharPtr) (d : CharPtr)
    → o ≡ some d
    → LiesBefore listed.mem d
    → (c : CharPtr) → o ≡ some c
    → LiesBefore listed.mem c
before_at (some x) d e l c f =
    let same_place : d ≡ c = ground arith in subst (LiesBefore listed.mem) same_place l
before_at none d e l c f = absurd (ground arith)

before_none : (o : Option CharPtr) → o ≡ none → (c : CharPtr) → o ≡ some c → LiesBefore listed.mem c
before_none none e c f = absurd (ground arith)
before_none (some x) e c f = absurd (ground arith)

listed-NamesBefore : NamesBefore listed
unfolding string_at read_from
listed-NamesBefore = record {
  sections_before = λ i. elim (Bool-cases (i == 0)) [
    | inl e ↦ before_at _ (record { half = inti; off = 0 }) (ground arith) (inr (omega arith))
    | inr e ↦ before_none _ (ground arith)
  ];
  keys_before = λ i. elim (Bool-cases (i == 0)) [
    | inl e ↦ before_at _ (record { half = inti; off = 3 }) (ground arith) (inr (omega arith))
    | inr e ↦ elim (Bool-cases (i == 1)) [
      | inl f ↦ before_at _ (record { half = inti; off = 5 }) (ground arith) (inr (omega arith))
      | inr f ↦ before_none _ (ground arith)
    ]
  ];
}

update_value_ofkey-get_example :
    (get_value_ofkey 0
        (some (on_key "ab" "y" (some (codes "v"))))
        (update_value_ofkey 0 (some (on_key "ab" "y" (some (codes "v")))) listed).1
      ≡ (
        ok (some (record { half = inti; off = 7 })),
        (update_value_ofkey 0 (some (on_key "ab" "y" (some (codes "v")))) listed).1,
      ))
    × (string_at
          (update_value_ofkey 0 (some (on_key "ab" "y" (some (codes "v")))) listed).1.mem
          (record { half = inti; off = 7 })
        ≡ codes "v")
unfolding section_of keyval_of find_inifile_section find_keyvalue_unsect ◌>>=◌ nodes find_node
    same_name length_or str_int_len text_of string_at read_from memcmp
update_value_ofkey-get_example =
    update_value_ofkey-get 0 (on_key "ab" "y" (some (codes "v"))) listed (codes "ab") (codes "y")
      (codes "v") 0 1 refl refl refl refl refl refl listed-IsTidy listed-NamesBefore
      (λ e. ground arith, tt) refl (omega arith)

appends-IsChain_example :
    IsChain
      (keyval_links (link_keyval 0 (0 ∷ 1 ∷ []) 7 listed))
      ((link_keyval 0 (0 ∷ 1 ∷ []) 7 listed).sections 0).head
      (0 ∷ 1 ∷ 7 ∷ [])
    × IsChain
        (keyval_links (append_keyval 0 (0 ∷ 1 ∷ []) 7 listed))
        ((append_keyval 0 (0 ∷ 1 ∷ []) 7 listed).sections 0).head
        (0 ∷ 1 ∷ 7 ∷ [])
    × IsChain
        (section_links (link_section 0 (0 ∷ []) 7 listed))
        ((link_section 0 (0 ∷ []) 7 listed).files 0).head
        (0 ∷ 7 ∷ [])
    × IsChain
        (section_links (append_section 0 (0 ∷ []) 7 listed))
        ((append_section 0 (0 ∷ []) 7 listed).files 0).head
        (0 ∷ 7 ∷ [])
appends-IsChain_example =
    appends-IsChain 0 0 7 (0 ∷ 1 ∷ []) (0 ∷ []) listed (refl, (refl, refl))
      ((λ e. ground arith, tt), (tt, tt)) (λ e. ground arith, (λ e. ground arith, tt)) refl
      (refl, refl) (tt, tt) (λ e. ground arith, tt) refl

removes-IsChain_example :
    IsChain
      (keyval_links (unlink_keyval 0 1 listed))
      ((unlink_keyval 0 1 listed).sections 0).head
      (0 ∷ [])
    × IsChain
        (section_links (unlink_section 0 0 listed))
        ((unlink_section 0 0 listed).files 0).head
        []
removes-IsChain_example =
    removes-IsChain 0 1 0 0 listed (0 ∷ []) [] [] [] (refl, (refl, refl))
      ((λ e. ground arith, tt), (tt, tt)) refl (refl, refl) (tt, tt) refl
