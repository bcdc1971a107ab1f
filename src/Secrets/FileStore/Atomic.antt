-- ===== src/Secrets/FileStore/Atomic.antt =====
-- crates/secrets/src/file_store.rs: the file is replaced as a whole or left as it was.
use headless_mcp_server.Prelude.{
  ◌≡◌, ap, ◌∙◌, Option, some, List, [], ◌++◌, ok, err, map_err-eq-ok, map_err-eq-err,
}
use headless_mcp_server.Exec.{Exec, ◌>>◌}
use headless_mcp_server.Exec.Post.{bind-Post}
use headless_mcp_server.Secrets.{SecretError, io, SecretResult}
use headless_mcp_server.Secrets.FileStore.{Files, on_disk, write_atomic}
use headless_mcp_server.Secrets.FileStore.Seen.{IsSeen}

module _ {B D T : Type 0} (files : Files B D T) (contents : D → Option (List B))
    (written : T → D → List B) (disk : IsSeen files contents written) where
  -- Whether it succeeds or not, what stands at the path afterwards.
  abbrev pub Writes : List B → D → SecretResult (Unit {0}) → D → Type 0
  Writes bytes before r after =
      (r ≡ ok tt → contents after ≡ some bytes)
      × ((e : SecretError) → r ≡ err e → contents after ≡ contents before)

  persist-Writes :
      (bytes : List B) (before d : D) (tmp : T)
      → contents d ≡ contents before
      → written tmp d ≡ bytes
      → Writes bytes before (on_disk (files.persist tmp) d).0 (on_disk (files.persist tmp) d).1
  persist-Writes bytes before d tmp same full = (
    λ h. disk.persists tmp d (map_err-eq-ok io _ h) ∙ ap some full,
    λ e h. disk.persist_keeps tmp d (map_err-eq-err io _ h).1 ∙ same,
  )

  -- From the temporary file on.
  filled-Writes :
      (bytes : List B) (before d : D) (tmp : T)
      → contents d ≡ contents before
      → written tmp d ≡ []
      → let rest : Exec D SecretError (Unit {0}) = do
        on_disk (files.write_all tmp bytes)
        on_disk (files.sync_all tmp)
        on_disk (files.set_owner_only tmp)
        on_disk (files.persist tmp)
        in Writes bytes before (rest d).0 (rest d).1
  filled-Writes bytes before d tmp same empty =
      let Q = Writes bytes before in
      let d₁ = (files.write_all tmp bytes d).1 in
      let d₂ = (files.sync_all tmp d₁).1 in
      let d₃ = (files.set_owner_only tmp d₂).1 in
      let same₁ = disk.write_keeps tmp bytes d ∙ same in
      let same₂ = disk.sync_keeps tmp d₁ ∙ same₁ in
      let same₃ = disk.owner_keeps tmp d₂ ∙ same₂ in
      bind-Post Q (on_disk (files.write_all tmp bytes)) _ d (λ e _. (λ h. cc, λ _ _. same₁))
        λ _ wrote.
          bind-Post Q (on_disk (files.sync_all tmp)) _ d₁ (λ e _. (λ h. cc, λ _ _. same₂))
            λ _ _.
              bind-Post Q (on_disk (files.set_owner_only tmp)) _ d₂ (λ e _. (λ h. cc, λ _ _. same₃))
                λ _ _. persist-Writes bytes before d₃ tmp same₃ (
                  disk.owner_written tmp d₂
                  ∙ disk.sync_written tmp d₁
                  ∙ disk.writes tmp bytes d (map_err-eq-ok io _ wrote)
                  ∙ ap (λ (w : List B). w ++ bytes) empty)

  pub write_atomic-Writes :
      (bytes : List B) (d : D)
      → Writes bytes d (write_atomic files bytes d).0 (write_atomic files bytes d).1
  unfolding write_atomic
  write_atomic-Writes bytes d =
      let Q = Writes bytes d in
      let d₁ = (files.create_dir_all d).1 in
      let same = disk.create_keeps d in
      bind-Post Q (on_disk files.create_dir_all) _ d (λ e _. (λ h. cc, λ _ _. same))
        λ _ _.
          bind-Post Q (on_disk files.new_temp) _ d₁
            (λ e _. (λ h. cc, λ _ _. disk.temp_keeps d₁ ∙ same))
            λ tmp made.
              filled-Writes bytes d (files.new_temp d₁).1 tmp (disk.temp_keeps d₁ ∙ same)
                (disk.temp_empty tmp d₁ (map_err-eq-ok io _ made))
