-- ===== src/MainHandler/Names.antt =====
-- mainhandler/cronjobhandler.go: the name of a cron job, as a list of bytes. The pattern
-- `[^A-Za-z0-9-]+` of handlerequests.go matches a run of bytes outside the class: of a character
-- that is not ASCII every byte is.
use kontroller.Base.{
  ℕ, ◌+◌, ◌≤◌, suc, zero, ◌≡◌, refl, Bool, true, false, ◌&&◌, ◌||◌, List, [], ◌∷◌, arith, leb,
  if◌then◌else◌, length, is_empty, All, inl, inr, Bool-cases,
}

abbrev between : ℕ → ℕ → ℕ → Bool
between lo hi c = leb lo c && leb c hi

abbrev dash : ℕ
dash = 45

abbrev pub is_dash : ℕ → Bool
is_dash c = between dash dash c

abbrev is_upper : ℕ → Bool
is_upper c = between 65 90 c

-- the class of the pattern
abbrev is_name_char : ℕ → Bool
is_name_char c = is_upper c || between 97 122 c || between 48 57 c || is_dash c

unfoldable pub truncate : ℕ → List ℕ → List ℕ
truncate zero cs = []
truncate (suc n) [] = []
truncate (suc n) (c ∷ cs) = c ∷ truncate n cs

-- The loop that drops the last byte while it is a dash.
unfoldable pub trim_dashes : List ℕ → List ℕ
trim_dashes [] = []
trim_dashes (c ∷ cs) =
    let rest = trim_dashes cs in if is_empty rest && is_dash c then [] else c ∷ rest

-- "invalid name was given"
abbrev invalid_name : List ℕ
invalid_name =
    105 ∷ 110 ∷ 118 ∷ 97 ∷ 108 ∷ 105 ∷ 100 ∷ 32 ∷ 110 ∷ 97 ∷ 109 ∷ 101 ∷ 32 ∷ 119 ∷ 97 ∷ 115 ∷ 32
    ∷ 103 ∷ 105 ∷ 118 ∷ 101 ∷ 110 ∷ []

-- `in_run`: whether the byte before is one that was replaced.
unfoldable pub replace_runs : Bool → List ℕ → List ℕ
replace_runs in_run [] = []
replace_runs in_run (c ∷ cs) =
    if is_name_char c
    then c ∷ replace_runs false cs
    else if in_run
    then replace_runs true cs
    else dash ∷ replace_runs true cs

unfoldable pub to_lower : List ℕ → List ℕ
to_lower [] = []
to_lower (c ∷ cs) = (if is_upper c then c + 32 else c) ∷ to_lower cs

abbrev or_invalid : List ℕ → List ℕ
or_invalid cs = if is_empty cs then invalid_name else cs

unfoldable pub fix_k8s_name_limit : List ℕ → ℕ → List ℕ
fix_k8s_name_limit name limit =
    to_lower (replace_runs false (or_invalid (trim_dashes (truncate limit name))))

abbrev pub fix_k8s_cron_job_name_limit : List ℕ → List ℕ
fix_k8s_cron_job_name_limit name = fix_k8s_name_limit name 52

-- the bytes of a DNS label: a lower-case letter, a digit or a dash
abbrev pub is_label_char : ℕ → Bool
is_label_char c = between 97 122 c || between 48 57 c || is_dash c

truncate-length : (n : ℕ) (cs : List ℕ) → length (truncate n cs) ≤ n
unfolding truncate
truncate-length zero cs = ground arith
truncate-length (suc n) [] = ground arith
truncate-length (suc n) (c ∷ cs) = ground (arith, truncate-length n cs)

trim_dashes-length : (cs : List ℕ) → length (trim_dashes cs) ≤ length cs
unfolding trim_dashes
trim_dashes-length [] = ground arith
trim_dashes-length (c ∷ cs) = ground (arith, trim_dashes-length cs)

replace_runs-length : (r : Bool) (cs : List ℕ) → length (replace_runs r cs) ≤ length cs
unfolding replace_runs
replace_runs-length r [] = ground arith
replace_runs-length r (c ∷ cs) =
    ground (arith, replace_runs-length true cs, replace_runs-length false cs)

to_lower-length : (cs : List ℕ) → length (to_lower cs) ≡ length cs
unfolding to_lower
to_lower-length [] = refl
to_lower-length (c ∷ cs) = ground (arith, to_lower-length cs)

-- Outside a run the first byte is kept or replaced.
replace_runs-nonempty : (cs : List ℕ) → 1 ≤ length cs → 1 ≤ length (replace_runs false cs)
unfolding replace_runs
replace_runs-nonempty [] h = absurd (ground arith)
replace_runs-nonempty (c ∷ cs) h = ground arith

or_invalid-length :
    (cs : List ℕ) → (1 ≤ length (or_invalid cs)) × (length (or_invalid cs) ≤ 22 + length cs)
or_invalid-length [] = (ground arith, ground arith)
or_invalid-length (c ∷ cs) = (ground arith, ground arith)

or_invalid-bound : (n : ℕ) (cs : List ℕ) → 22 ≤ n → length cs ≤ n → length (or_invalid cs) ≤ n
or_invalid-bound n [] h k = ground arith
or_invalid-bound n (c ∷ cs) h k = k

replaced-IsNameChar :
    (r : Bool) (cs : List ℕ) → All (λ c. is_name_char c ≡ true) (replace_runs r cs)
unfolding replace_runs
replaced-IsNameChar r [] = tt
replaced-IsNameChar r (c ∷ cs) = elim (Bool-cases (is_name_char c)) [
  | inl y ↦ rw (replace_runs, y) (y, replaced-IsNameChar false cs)
  | inr n ↦ elim (Bool-cases r) [
    | inl y ↦ rw (replace_runs, n, y) (replaced-IsNameChar true cs)
    | inr m ↦ rw (replace_runs, n, m) (refl, replaced-IsNameChar true cs)
  ]
]

lower-IsLabelChar :
    (cs : List ℕ)
    → All (λ c. is_name_char c ≡ true) cs
    → All (λ c. is_label_char c ≡ true) (to_lower cs)
unfolding to_lower
lower-IsLabelChar [] h = tt
lower-IsLabelChar (c ∷ cs) h = (ground (arith, h.0), lower-IsLabelChar cs h.1)

-- A fixed name is not empty, keeps a limit that the replacement for an empty name keeps (22), and
-- holds only lower-case letters, digits and dashes.
pub fix_k8s_name_limit_lem :
    (name : List ℕ) (limit : ℕ)
    → 22 ≤ limit
    → (1 ≤ length (fix_k8s_name_limit name limit))
      × (length (fix_k8s_name_limit name limit) ≤ limit)
      × All (λ c. is_label_char c ≡ true) (fix_k8s_name_limit name limit)
unfolding fix_k8s_name_limit
fix_k8s_name_limit_lem name limit h =
    let t = trim_dashes (truncate limit name) in
    let u = or_invalid t in
    let r = replace_runs false u in
    let lower = to_lower-length r in
    let bound =
      or_invalid-bound limit t h
        (omega (arith, truncate-length limit name, trim_dashes-length (truncate limit name))) in
    let least = replace_runs-nonempty u (or_invalid-length t).0 in
    let most = replace_runs-length false u in
    (
      omega (arith, lower, least),
      omega (arith, lower, most, bound),
      lower-IsLabelChar r (replaced-IsNameChar false u),
    )
