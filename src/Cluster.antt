-- ===== src/Cluster.antt =====
-- The Kubernetes API as the operator calls it for the objects it keeps in its own namespace:
-- `KubernetesClient` and `DynamicClient`. The API server is a parameter, an interface with its
-- documented behaviour; a call reads and writes a state that this development does not look into.
pub mod Steps
pub mod Effects
pub mod Goroutines
use kontroller.Base.{
  String, ◌≡◌, ◌⊎◌, Bool, true, false, ◌&&◌, Option, none, some, List, ◌==◌, Result,
}
use kontroller.Base.Dict.{Dict}

pub data Kind : Type 0 where
  cron_jobs config_maps secrets jobs : Kind

-- `corev1.Volume`: its name and the name of its config map, if it has one.
pub record Volume : Type 0 where
  pub name : String
  pub config_map : Option String

-- `batchv1.JobSpec`: what the operator reads or sets in the template of the pod, and the rest. A
-- missing map is an empty one.
pub record JobSpec : Type 0 where
  pub annotations : Dict String
  pub volumes : List Volume
  pub rest : String

pub record CronJob : Type 0 where
  pub name : String
  pub namespace : String
  pub labels : Dict String
  pub schedule : String
  pub time_zone : Option String
  pub job : JobSpec

pub record ConfigMap : Type 0 where
  pub name : String
  pub namespace : String
  pub labels : Dict String
  pub contents : Dict String

pub record Secret : Type 0 where
  pub name : String
  pub namespace : String
  pub type : String
  pub string_data : Dict String

pub record Job : Type 0 where
  pub name : String
  pub namespace : String
  pub labels : Dict String
  pub job : JobSpec

abbrev pub Held : Kind → Type 0
Held Kind.cron_jobs = CronJob
Held Kind.config_maps = ConfigMap
Held Kind.secrets = Secret
Held Kind.jobs = Job

abbrev pub same_kind : Kind → Kind → Bool
same_kind Kind.cron_jobs Kind.cron_jobs = true
same_kind Kind.config_maps Kind.config_maps = true
same_kind Kind.secrets Kind.secrets = true
same_kind Kind.jobs Kind.jobs = true
same_kind _ _ = false

pub data Verb : Type 0 where
  create update apply : Verb

-- `held` is what the server has of a name: of an object that is applied, the fields that the operator's
-- field manager owns. An apply by that manager, which forces conflicts, makes them those of the applied
-- object; the server keeps the fields of other managers besides, which nothing here reads. A call that reports an error was carried out or changed
-- nothing; one that reports none was carried out. No call touches another object, and nobody else
-- writes these objects in between.
pub record Api (S : Type 0) : Type 0 where
  pub held : (k : Kind) → String → S → Option (Held k)
  pub get : (k : Kind) → String → S → Result (Held k)
  pub write : Verb → (k : Kind) → String → Held k → S → Option String × S
  pub delete : (k : Kind) → String → S → Option String × S
  pub get-held :
      (k : Kind) (n : String) (s : S) (a : Held k) → get k n s ≡ Result.ok a → held k n s ≡ some a
  pub write-held :
      (v : Verb) (k : Kind) (n : String) (a : Held k) (s : S)
      → (write v k n a s).0 ≡ none
      → held k n (write v k n a s).1 ≡ some a
  pub write_or_not :
      (v : Verb) (k : Kind) (n : String) (a : Held k) (s : S)
      → (held k n (write v k n a s).1 ≡ some a) ⊎ (held k n (write v k n a s).1 ≡ held k n s)
  pub write_others :
      (v : Verb) (k : Kind) (n : String) (a : Held k) (s : S) (other : Kind) (m : String)
      → (same_kind k other && n == m) ≡ false
      → held other m (write v k n a s).1 ≡ held other m s
  pub delete-held :
      (k : Kind) (n : String) (s : S) → (delete k n s).0 ≡ none → held k n (delete k n s).1 ≡ none
  pub delete_or_not :
      (k : Kind) (n : String) (s : S)
      → (held k n (delete k n s).1 ≡ none) ⊎ (held k n (delete k n s).1 ≡ held k n s)
  pub delete_others :
      (k : Kind) (n : String) (s : S) (other : Kind) (m : String)
      → (same_kind k other && n == m) ≡ false
      → held other m (delete k n s).1 ≡ held other m s
  -- "not found"
  pub delete_missing :
      (k : Kind) (n : String) (s : S)
      → held k n s ≡ none
      → (e : String) × ((delete k n s).0 ≡ some e)
