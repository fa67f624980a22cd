-- ===== src/Admission/Server/Rotation.antt =====
-- admission/webhook/server.go: what `notifyChanges` signals.
use kontroller.Base.{String, ◌≡◌, refl, Bool, true, List, [], ◌∷◌}
use kontroller.Base.Dict.{Dict}
use kontroller.Admission.Server.{FileInfo, Infos, Tick, get_infos, watch_files, notify_changes}

get_infos-res :
    (stat : String → FileInfo) (paths : List String) (i : Infos)
    → (get_infos stat paths i).res ≡ i.res
unfolding get_infos
get_infos-res stat [] i = refl
get_infos-res stat (path ∷ rest) i = get_infos-res stat rest _

module _ (deep_equal : Dict FileInfo → Dict FileInfo → Bool) (paths : List String) where
  watch_files-empty :
      deep_equal [] [] ≡ true
      → (ticks : List Tick) (infos : Dict FileInfo)
      → watch_files deep_equal paths infos [] ticks ≡ []
  unfolding watch_files
  watch_files-empty same [] infos = refl
  watch_files-empty same (t ∷ rest) infos =
      let nothing = get_infos-res t.stat paths (record { infos = infos; res = [] }) in
      rw (nothing, same) (watch_files-empty same rest _)

  -- Whatever happens to the files and whenever the client reads, no change is ever signalled, if
  -- the comparison finds two empty maps equal.
  pub notify_changes_never :
      deep_equal [] [] ≡ true
      → (stat : String → FileInfo) (ticks : List Tick)
      → notify_changes deep_equal paths stat ticks ≡ []
  unfolding notify_changes
  notify_changes_never same stat ticks =
      rw (get_infos-res stat paths (record { infos = []; res = [] }))
        (watch_files-empty same ticks _)
