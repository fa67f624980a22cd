-- ===== src/Tests/Cluster.antt =====
-- A cluster that does what it is asked, as four maps, and the registries and schedules kept there.
use kontroller.Base.{
  String, ◌≡◌, refl, false, ◌&&◌, Option, none, some, ◌==◌, arith, Result, ok, err, inl, eq_refl,
}
use kontroller.Base.Dict.{Dict, lookup, insert, remove, lookup-insert, lookup-remove}
use kontroller.Cluster.{Api, Kind, Held, CronJob, ConfigMap, Secret, Job, same_kind}

pub record Store : Type 0 where
  pub cron_jobs : Dict CronJob
  pub config_maps : Dict ConfigMap
  pub secrets : Dict Secret
  pub jobs : Dict Job

abbrev pub held : (k : Kind) → String → Store → Option (Held k)
held Kind.cron_jobs n s = lookup n s.cron_jobs
held Kind.config_maps n s = lookup n s.config_maps
held Kind.secrets n s = lookup n s.secrets
held Kind.jobs n s = lookup n s.jobs

abbrev pub put : (k : Kind) → String → Held k → Store → Store
put Kind.cron_jobs n a s = record s { cron_jobs = insert n a s.cron_jobs }
put Kind.config_maps n a s = record s { config_maps = insert n a s.config_maps }
put Kind.secrets n a s = record s { secrets = insert n a s.secrets }
put Kind.jobs n a s = record s { jobs = insert n a s.jobs }

abbrev pub drop : (k : Kind) → String → Store → Store
drop Kind.cron_jobs n s = record s { cron_jobs = remove n s.cron_jobs }
drop Kind.config_maps n s = record s { config_maps = remove n s.config_maps }
drop Kind.secrets n s = record s { secrets = remove n s.secrets }
drop Kind.jobs n s = record s { jobs = remove n s.jobs }

abbrev pub found {ℓ} : {A : Type ℓ} → Option A → Result A
found none = err "not found"
found (some a) = ok a

abbrev pub removed {ℓ} : {A : Type ℓ} → Option A → Store → Store → Option String × Store
removed none before after = (some "not found", before)
removed (some a) before after = (none, after)

pub held-put : (k : Kind) (n : String) (a : Held k) (s : Store) → held k n (put k n a s) ≡ some a
held-put Kind.cron_jobs n a s = ground (arith, lookup-insert n n a s.cron_jobs, eq_refl n)
held-put Kind.config_maps n a s = ground (arith, lookup-insert n n a s.config_maps, eq_refl n)
held-put Kind.secrets n a s = ground (arith, lookup-insert n n a s.secrets, eq_refl n)
held-put Kind.jobs n a s = ground (arith, lookup-insert n n a s.jobs, eq_refl n)

held-drop : (k : Kind) (n : String) (s : Store) → held k n (drop k n s) ≡ none
held-drop Kind.cron_jobs n s = ground (arith, lookup-remove n n s.cron_jobs, eq_refl n)
held-drop Kind.config_maps n s = ground (arith, lookup-remove n n s.config_maps, eq_refl n)
held-drop Kind.secrets n s = ground (arith, lookup-remove n n s.secrets, eq_refl n)
held-drop Kind.jobs n s = ground (arith, lookup-remove n n s.jobs, eq_refl n)

pub put_others :
    (k : Kind) (n : String) (a : Held k) (s : Store) (other : Kind) (m : String)
    → (same_kind k other && n == m) ≡ false
    → held other m (put k n a s) ≡ held other m s
put_others Kind.cron_jobs n a s Kind.cron_jobs m h =
    ground (arith, h, lookup-insert n m a s.cron_jobs)
put_others Kind.config_maps n a s Kind.config_maps m h =
    ground (arith, h, lookup-insert n m a s.config_maps)
put_others Kind.secrets n a s Kind.secrets m h = ground (arith, h, lookup-insert n m a s.secrets)
put_others Kind.jobs n a s Kind.jobs m h = ground (arith, h, lookup-insert n m a s.jobs)
put_others k n a s other m h = refl

drop_others :
    (k : Kind) (n : String) (s : Store) (other : Kind) (m : String)
    → (same_kind k other && n == m) ≡ false
    → held other m (drop k n s) ≡ held other m s
drop_others Kind.cron_jobs n s Kind.cron_jobs m h = ground (arith, h, lookup-remove n m s.cron_jobs)
drop_others Kind.config_maps n s Kind.config_maps m h =
    ground (arith, h, lookup-remove n m s.config_maps)
drop_others Kind.secrets n s Kind.secrets m h = ground (arith, h, lookup-remove n m s.secrets)
drop_others Kind.jobs n s Kind.jobs m h = ground (arith, h, lookup-remove n m s.jobs)
drop_others k n s other m h = refl

pub found-ok {ℓ} : {A : Type ℓ} (o : Option A) (a : A) → found o ≡ ok a → o ≡ some a
found-ok none a h = absurd cc
found-ok (some b) a h = ground (arith, h)

abbrev pub deleted : (k : Kind) → String → Store → Option String × Store
deleted k n s = removed (held k n s) s (drop k n s)

pub removed-held :
    (k : Kind) (n : String) (s : Store) (o : Option (Held k))
    → held k n s ≡ o
    → held k n (removed o s (drop k n s)).1 ≡ none
removed-held k n s none h = h
removed-held k n s (some a) h = held-drop k n s

pub removed_others :
    (k : Kind) (n : String) (s : Store) (o : Option (Held k)) (other : Kind) (m : String)
    → (same_kind k other && n == m) ≡ false
    → held other m (removed o s (drop k n s)).1 ≡ held other m s
removed_others k n s none other m h = refl
removed_others k n s (some a) other m h = drop_others k n s other m h

abbrev pub obedient : Api Store
obedient = record {
  held = held;
  get = λ k n s. found (held k n s);
  write = λ v k n a s. (none, put k n a s);
  delete = deleted;
  get-held = λ k n s a h. found-ok (held k n s) a h;
  write-held = λ v k n a s h. held-put k n a s;
  write_or_not = λ v k n a s. inl (held-put k n a s);
  write_others = λ v k n a s other m h. put_others k n a s other m h;
  delete-held = λ k n s h. removed-held k n s (held k n s) refl;
  delete_or_not = λ k n s. inl (removed-held k n s (held k n s) refl);
  delete_others = λ k n s other m h. removed_others k n s (held k n s) other m h;
  delete_missing = λ k n s h. ("not found", rw h refl);
}
