-- ===== src/MainHandler/ScanRequests.antt =====
-- mainhandler/kubescapehandlerhelper.go and `getCronTabSchedule` of kubescapehandler.go: the
-- requests to the configuration scanner.
use package.text.Mathlib.Text.{starts_with}
use kontroller.Base.{
  String, ◌≡◌, ◌≢◌, refl, true, false, not, ◌&&◌, ◌||◌, List, [], ◌∷◌, ◌++◌, ◌==◌, arith,
  if◌then◌else◌, contains, Result, ok, err, Option, none, some, Bool-cases, inl, inr, eq_iff,
  eq_refl, contains-append, All, is_empty, Option-cases,
}
use kontroller.Base.Dict.{Dict, lookup}
use kontroller.Utils.Types.{
  ScanRequest, Arg, Command, text, kubescape_scan_v1, container_data, pod, scan_v1,
}

abbrev pub security_framework_name : String
security_framework_name = "security"

-- `KindFramework` of opa-utils is a parameter: the name of the type of framework scans.
module _ (kind_framework : String) where
  unfoldable pub set_defaults : ScanRequest → ScanRequest
  set_defaults r =
      if is_empty r.target_names
      then record r { target_names = "all" ∷ []; target_type = kind_framework }
      else r

  unfoldable pub name_all : List String → List String
  name_all [] = []
  name_all (n ∷ rest) = (if n == "" then "all" else n) ∷ name_all rest

  abbrev with_names : ScanRequest → ScanRequest
  with_names r = record r { target_names = name_all r.target_names }

  decoded : Result ScanRequest → Result ScanRequest
  decoded (err e) = err e
  decoded (ok r) =
      ok (with_names (if is_empty r.target_names || r.target_type == "" then set_defaults r else r))

  -- `convert` is the round trip through JSON, which may fail.
  unfoldable pub get_kubescape_v1_scan_request :
      (Arg → Result ScanRequest) → Dict Arg → Result ScanRequest
  unfolding decoded
  get_kubescape_v1_scan_request convert args = elim (lookup kubescape_scan_v1 args) [
    | none ↦ err "request not found"
    | some a ↦ decoded (convert a)
  ]

  unfoldable pub append_security_framework : ScanRequest → ScanRequest
  append_security_framework r =
      if r.target_type == kind_framework && not (contains r.target_names security_framework_name)
      then record r { target_names = r.target_names ++ security_framework_name ∷ [] }
      else r

  unfoldable pub validate_kubescape_scan_request : ScanRequest → Result (Unit {0})
  validate_kubescape_scan_request r =
      if not (is_empty r.target_names) && r.target_type == ""
      then err "received targetNames but not target types"
      else ok tt

  name_all-nonempty : (ns : List String) → All (λ n. n ≢ "") (name_all ns)
  unfolding name_all
  name_all-nonempty [] = tt
  name_all-nonempty (n ∷ rest) =
      (λ e. ground (arith, eq_iff n "", eq_iff "all" ""), name_all-nonempty rest)

  is_empty-name_all : (ns : List String) → is_empty (name_all ns) ≡ is_empty ns
  unfolding name_all
  is_empty-name_all [] = refl
  is_empty-name_all (n ∷ rest) = refl

  decoded_lem :
      (a : Result ScanRequest) (r : ScanRequest)
      → decoded a ≡ ok r
      → (given : ScanRequest) × (a ≡ ok given)
        × (is_empty r.target_names ≡ false)
        × All (λ n. n ≢ "") r.target_names
        × (is_empty given.target_names ≡ true → r.target_type ≡ kind_framework)
        × (is_empty given.target_names ≡ false
            → (r.target_names ≡ name_all given.target_names) × (r.target_type ≡ given.target_type))
  unfolding decoded set_defaults
  decoded_lem (err e) r h = absurd cc
  decoded_lem (ok g) r h = elim (Bool-cases (is_empty g.target_names)) [
    | inl y ↦
        let same : r.target_names ≡ name_all ("all" ∷ []) = ground (arith, h, y) in
        (
          g,
          refl,
          rw (same, is_empty-name_all ("all" ∷ [])) refl,
          rw same (name_all-nonempty ("all" ∷ [])),
          λ _. ground (arith, h, y),
          λ n. absurd (cc (n, y)),
        )
    | inr n ↦
        let same : r.target_names ≡ name_all g.target_names = ground (arith, h, n) in
        (
          g,
          refl,
          rw (same, is_empty-name_all g.target_names) n,
          rw same (name_all-nonempty g.target_names),
          λ y. absurd (cc (n, y)),
          λ _. (same, ground (arith, h, n)),
        )
  ]

  -- A request that is made of a command's arguments names at least one target, and none by the
  -- empty name. Without names given it is a framework scan; otherwise its type is the given one,
  -- even where that is missing.
  pub get_kubescape_v1_scan_request_lem :
      (convert : Arg → Result ScanRequest) (args : Dict Arg) (r : ScanRequest)
      → get_kubescape_v1_scan_request convert args ≡ ok r
      → (a : Arg) × (given : ScanRequest) × (lookup kubescape_scan_v1 args ≡ some a)
        × (convert a ≡ ok given)
        × (is_empty r.target_names ≡ false)
        × All (λ n. n ≢ "") r.target_names
        × (is_empty given.target_names ≡ true → r.target_type ≡ kind_framework)
        × (is_empty given.target_names ≡ false
            → (r.target_names ≡ name_all given.target_names) × (r.target_type ≡ given.target_type))
  unfolding get_kubescape_v1_scan_request
  get_kubescape_v1_scan_request_lem convert args r h =
      elim (Option-cases (lookup kubescape_scan_v1 args)) [
        | inl n ↦ absurd (ground (arith, n))
        | inr (a, e) ↦
            let (g, f, v, w, x, y) = decoded_lem (convert a) r (ground (arith, e, h)) in
            (a, g, e, f, v, w, x, y)
      ]

  -- A framework scan includes the security framework afterwards, any other scan is left alone, the
  -- type is kept, and doing it twice is doing it once.
  pub append_security_framework_lem :
      (r : ScanRequest)
      → let s = append_security_framework r in
        (r.target_type ≡ kind_framework → contains s.target_names security_framework_name ≡ true)
        × (r.target_type ≢ kind_framework → s ≡ r)
        × (s.target_type ≡ r.target_type)
        × (append_security_framework s ≡ s)
  unfolding append_security_framework
  append_security_framework_lem r =
      let here =
        contains-append r.target_names (security_framework_name ∷ []) security_framework_name in
      let same = eq_refl security_framework_name in
      let type = eq_iff r.target_type kind_framework in
      (
        λ e. ground (arith, e, type, here, same),
        λ n. ground (arith, n, type),
        ground arith,
        ground (arith, type, here, same),
      )

-- `combineKubescapeCMDArgsWithFrameworkName`: the loop drops the words before the first flag.
unfoldable pub drop_words : List String → List String
drop_words [] = []
drop_words (a ∷ rest) =
    let others = drop_words rest in if starts_with a "-" then a ∷ rest else others

unfoldable pub combine_kubescape_cmd_args_with_framework_name : String → List String → List String
combine_kubescape_cmd_args_with_framework_name framework args =
    let first = if framework == "" then "scan" ∷ [] else "scan" ∷ "framework" ∷ framework ∷ [] in
    first ++ drop_words args

abbrev text_of : Option Arg → Option String
text_of none = none
text_of (some (text s)) = some s
text_of (some (container_data _)) = none
text_of (some (pod _)) = none
text_of (some (scan_v1 _)) = none

abbrev schedule_of_designators : List (Dict String) → String
schedule_of_designators [] = ""
schedule_of_designators (d ∷ _) = elim (lookup "cronTabSchedule" d) [ none ↦ "" | some s ↦ s ]

-- `job_params` is the schedule of the parameters of `getKubescapeJobParams`, if there are any.
unfoldable pub get_cron_tab_schedule : Option String → Command → String
get_cron_tab_schedule job_params c = elim job_params [
  | some s ↦ s
  | none ↦ elim (text_of (lookup "cronTabSchedule" c.args)) [
    | some s ↦ s
    | none ↦ schedule_of_designators c.designators
  ]
]
