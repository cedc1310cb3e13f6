-- ===== src/Scan/Jobs/Laws.antt =====
-- The jobs that `create_jobs` makes and `get_next_job` hands out, portscan/ps_setup.c.
use ini.Base.{
  Bool, Bytes, List, Option, [], ap, arith, false, length, length-append, none, refl, some, suc,
  sym, true, zero, ℕ, ◌++◌, ◌+◌, ◌-◌, ◌∙◌, ◌∷◌, ◌≡◌,
}
use ini.Scan.{Job, Setup, get_next_job, not_null, push_job}
use ini.Scan.Jobs.{create_jobs, push_ips, push_ports, push_scans}

-- The list with another one turned round in front of it.
abbrev pub onto {ℓ} : {A : Type ℓ} → List A → List A → List A
onto [] ys = ys
onto (x ∷ xs) ys = onto xs (x ∷ ys)

onto-append {ℓ} : {A : Type ℓ} (xs ys zs : List A) → onto (xs ++ ys) zs ≡ onto ys (onto xs zs)
onto-append [] ys zs = refl
onto-append (x ∷ xs) ys zs = onto-append xs ys (x ∷ zs)

length-onto {ℓ} : {A : Type ℓ} (xs ys : List A) → length (onto xs ys) ≡ length xs + length ys
length-onto [] ys = omega arith
length-onto (x ∷ xs) ys = omega (arith, length-onto xs (x ∷ ys))

-- One job for each scan that is wanted, address and port.
abbrev pub jobs_of_ports : Bytes → ℕ → List ℕ → List Job
jobs_of_ports ip type [] = []
jobs_of_ports ip type (p ∷ ps) =
    (record { ip = ip; portno = p; scan_type = type }) ∷ jobs_of_ports ip type ps

abbrev pub jobs_of_ips : ℕ → List ℕ → List Bytes → List Job
jobs_of_ips type ps [] = []
jobs_of_ips type ps (ip ∷ ips) = jobs_of_ports ip type ps ++ jobs_of_ips type ps ips

abbrev pub jobs_of : ℕ → List Bool → List ℕ → List Bytes → List Job
jobs_of i [] ps ips = []
jobs_of i (true ∷ scans) ps ips = jobs_of_ips i ps ips ++ jobs_of (i + 1) scans ps ips
jobs_of i (false ∷ scans) ps ips = jobs_of (i + 1) scans ps ips

-- The jobs pushed, each in front of those before it.
abbrev pushed : List Job → Setup → Setup
pushed js s = record s {
  job_masterlist = onto js s.job_masterlist;
  job_masterlist_count = s.job_masterlist_count + length js;
}

pushed-append : (js ks : List Job) (s : Setup) → pushed (js ++ ks) s ≡ pushed ks (pushed js s)
pushed-append js ks s =
    ap (λ (x : List Job × ℕ). record s { job_masterlist = x.0; job_masterlist_count = x.1 })
      (ap (λ (l : List Job). (l, s.job_masterlist_count + length (js ++ ks)))
          (onto-append js ks s.job_masterlist)
        ∙ ap (λ (n : ℕ). (onto ks (onto js s.job_masterlist), n))
            (omega (arith, length-append js ks)))

pushed-nil : (s : Setup) → s ≡ pushed [] s
pushed-nil s = ap (λ (n : ℕ). record s { job_masterlist_count = n }) (omega arith)

push_ports-pushed :
    (ip : Bytes) (type : ℕ) (ps : List ℕ) (s : Setup)
    → push_ports ip type ps s ≡ pushed (jobs_of_ports ip type ps) s
unfolding push_ports
push_ports-pushed ip type [] s = pushed-nil s
push_ports-pushed ip type (p ∷ ps) s =
    let j : Job = record { ip = ip; portno = p; scan_type = type } in
    push_ports-pushed ip type ps (push_job ip p type s)
    ∙ sym (pushed-append (j ∷ []) (jobs_of_ports ip type ps) s)

push_ips-pushed :
    (type : ℕ) (ps : List ℕ) (ips : List Bytes) (s : Setup)
    → push_ips type ps ips s ≡ pushed (jobs_of_ips type ps ips) s
unfolding push_ips
push_ips-pushed type ps [] s = pushed-nil s
push_ips-pushed type ps (ip ∷ ips) s =
    push_ips-pushed type ps ips (push_ports ip type ps s)
    ∙ (ap (pushed (jobs_of_ips type ps ips)) (push_ports-pushed ip type ps s)
        ∙ sym (pushed-append (jobs_of_ports ip type ps) (jobs_of_ips type ps ips) s))

push_scans-pushed :
    (i : ℕ) (scans : List Bool) (ps : List ℕ) (ips : List Bytes) (s : Setup)
    → push_scans i scans ps ips s ≡ pushed (jobs_of i scans ps ips) s
unfolding push_scans
push_scans-pushed i [] ps ips s = pushed-nil s
push_scans-pushed i (false ∷ scans) ps ips s = push_scans-pushed (i + 1) scans ps ips s
push_scans-pushed i (true ∷ scans) ps ips s =
    push_scans-pushed (i + 1) scans ps ips (push_ips i ps ips s)
    ∙ (ap (pushed (jobs_of (i + 1) scans ps ips)) (push_ips-pushed i ps ips s)
        ∙ sym (pushed-append (jobs_of_ips i ps ips) (jobs_of (i + 1) scans ps ips) s))

-- The job that a call of `get_next_job` returns, before those of the calls to come.
abbrev pub with_job : Option Job × Setup → List Job × Setup → List Job × Setup
with_job (none, s) rest = ([], s)
with_job (some j, s) rest = (j ∷ rest.0, rest.1)

-- As many calls of `get_next_job`, until it returns NULL.
abbrev pub hand_out : ℕ → Setup → List Job × Setup
hand_out zero s = ([], s)
hand_out (suc n) s = with_job (get_next_job s) (hand_out n (get_next_job s).1)

-- The state with no jobs left, of those that there were.
abbrev pub drained : List Job → Setup → Setup
drained js s = record s {
  job_masterlist = [];
  job_masterlist_count = s.job_masterlist_count - length js;
}

next_job :
    (s : Setup) (j : Job) (js : List Job)
    → s.job_masterlist ≡ j ∷ js
    → get_next_job s ≡ (
      some j,
      record s { job_masterlist = js; job_masterlist_count = s.job_masterlist_count - 1 },
    )
unfolding get_next_job
next_job s j js e = rw (get_next_job, e) refl

hand_out_lem :
    (js : List Job) (s : Setup)
    → s.job_masterlist ≡ js
    → hand_out (length js) s ≡ (js, drained js s)
hand_out_lem [] s e =
    ap (λ (x : List Job × ℕ). ([], record s { job_masterlist = x.0; job_masterlist_count = x.1 }))
      (ap (λ (l : List Job). (l, s.job_masterlist_count)) e ∙ ap (λ (n : ℕ). ([], n)) (omega arith))
hand_out_lem (j ∷ js) s e =
    let rest : Setup = record s {
      job_masterlist = js;
      job_masterlist_count = s.job_masterlist_count - 1;
    } in
    ap (λ (x : Option Job × Setup). with_job x (hand_out (length js) x.1)) (next_job s j js e)
    ∙ (ap (λ (x : List Job × Setup). (j ∷ x.0, x.1)) (hand_out_lem js rest refl)
        ∙ ap (λ (n : ℕ). (j ∷ js, record s { job_masterlist = []; job_masterlist_count = n }))
            (omega arith))

-- All jobs of a set-up, the last first.
abbrev pub jobs_to_do : Setup → List Job
jobs_to_do s = onto (jobs_of 0 s.scan s.port_list s.ip_list) []

-- Every job is handed out: from lists without jobs `create_jobs` makes one for each scan that is
-- wanted, address and port and counts them, and as many calls of `get_next_job` return each of
-- them once, the last made first, and leave no job and a count of 0, when there is a job at all.
pub create_jobs-hand_out :
    (s : Setup)
    → s.job_masterlist ≡ []
    → s.job_masterlist_count ≡ 0
    → not_null (jobs_to_do s) ≡ true
    → (s' : Setup) × (create_jobs s ≡ some s')
      × (s'.job_masterlist_count ≡ length (jobs_to_do s))
      × ((hand_out s'.job_masterlist_count s').0 ≡ jobs_to_do s)
      × ((hand_out s'.job_masterlist_count s').1.job_masterlist ≡ [])
      × ((hand_out s'.job_masterlist_count s').1.job_masterlist_count ≡ 0)
unfolding create_jobs
create_jobs-hand_out s none_there zero_there some_jobs =
    let all = jobs_of 0 s.scan s.port_list s.ip_list in
    let js = onto all [] in
    let s' = push_scans 0 s.scan s.port_list s.ip_list s in
    let made = push_scans-pushed 0 s.scan s.port_list s.ip_list s in
    let list_is : s'.job_masterlist ≡ js =
      ap (λ x. x.job_masterlist) made ∙ ap (onto all) none_there in
    let long : length js ≡ length all = length-onto all [] ∙ omega arith in
    let count_is : s'.job_masterlist_count ≡ length js =
      ap (λ x. x.job_masterlist_count) made ∙ omega (arith, long, zero_there) in
    let out : hand_out s'.job_masterlist_count s' ≡ (js, drained js s') =
      ap (λ n. hand_out n s') count_is ∙ hand_out_lem js s' list_is in
    (
      s',
      rw (create_jobs, list_is, some_jobs) refl,
      count_is,
      ap (λ x. x.0) out,
      ap (λ x. x.1.job_masterlist) out,
      ap (λ x. x.1.job_masterlist_count) out ∙ omega (arith, count_is),
    )
