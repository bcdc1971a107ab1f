-- ===== src/Secrets/FileStore/Seen.antt =====
-- crates/secrets/src/file_store.rs: what the store sees at its path. `Path::exists` is false also
-- where the metadata cannot be read, and such a path is to the store as one where nothing stands.
use headless_mcp_server.Prelude.{
  ℕ, String, ◌≡◌, ◌⊎◌, refl, true, false, Option, none, some, List, [], ◌++◌, ok, err, length,
  Bool-cases, inl, inr, if◌then◌else◌,
}
use headless_mcp_server.Secrets.FileStore.{Files}
use headless_mcp_server.Secrets.FileStore.Assumptions.{Same, IsFiles}

-- What stands at the path, as far as it is seen.
abbrev pub seen : {B D T : Type 0} → Files B D T → (D → Option (List B)) → D → Option (List B)
seen files contents d = if files.exists d then contents d else none

-- What is seen at a path changes by a rename that succeeds and by nothing else.
pub record IsSeen {B D T : Type 0} (files : Files B D T) (contents : D → Option (List B))
    (written : T → D → List B) : Type 0 where
  pub absent : (d : D) → files.exists d ≡ false → contents d ≡ none
  pub present : (d : D) → files.exists d ≡ true → (b : List B) × (contents d ≡ some b)
  pub reads :
      (d : D) {b : List B}
      → contents d ≡ some b
      → ((files.read d).0 ≡ ok b) ⊎ ((e : String) × ((files.read d).0 ≡ err e))
  pub read_keeps : (d : D) → contents (files.read d).1 ≡ contents d
  pub create_keeps : (d : D) → contents (files.create_dir_all d).1 ≡ contents d
  pub temp_keeps : (d : D) → contents (files.new_temp d).1 ≡ contents d
  pub write_keeps : (t : T) (b : List B) (d : D) → contents (files.write_all t b d).1 ≡ contents d
  pub sync_keeps : (t : T) (d : D) → contents (files.sync_all t d).1 ≡ contents d
  pub owner_keeps : (t : T) (d : D) → contents (files.set_owner_only t d).1 ≡ contents d
  pub random_keeps : (n : ℕ) (d : D) → contents (files.random n d).1 ≡ contents d
  pub persist_keeps :
      (t : T) (d : D) {e : String}
      → (files.persist t d).0 ≡ err e
      → contents (files.persist t d).1 ≡ contents d
  pub temp_empty :
      (t : T) (d : D) → (files.new_temp d).0 ≡ ok t → written t (files.new_temp d).1 ≡ []
  pub writes :
      (t : T) (b : List B) (d : D)
      → (files.write_all t b d).0 ≡ ok tt
      → written t (files.write_all t b d).1 ≡ written t d ++ b
  pub sync_written : (t : T) (d : D) → written t (files.sync_all t d).1 ≡ written t d
  pub owner_written : (t : T) (d : D) → written t (files.set_owner_only t d).1 ≡ written t d
  pub persists :
      (t : T) (d : D)
      → (files.persist t d).0 ≡ ok tt
      → contents (files.persist t d).1 ≡ some (written t d)
  pub random_length : (n : ℕ) (d : D) → length (files.random n d).0 ≡ n

module _ {B D T : Type 0} (files : Files B D T) (contents : D → Option (List B))
    (written : T → D → List B) (disk : IsFiles files contents written) where
  seen-Same :
      (before after : D)
      → Same files contents before after
      → seen files contents after ≡ seen files contents before
  seen-Same before after (same, same_exists) = rw same_exists (rw same refl)

  seen-eq-some : (d : D) {b : List B} → seen files contents d ≡ some b → contents d ≡ some b
  seen-eq-some d h = elim (Bool-cases (files.exists d)) [
    | inl e ↦ rw e at h
    | inr e ↦ absurd (let never = rw e at h in cc)
  ]

  pub seen-IsSeen : IsSeen files (seen files contents) written
  seen-IsSeen = record {
    absent = λ d e. rw e refl;
    present = λ d e. rw e (disk.present d e);
    reads = λ d h. disk.reads d (seen-eq-some d h);
    read_keeps = λ d. seen-Same d _ (disk.read_keeps d);
    create_keeps = λ d. seen-Same d _ (disk.create_keeps d);
    temp_keeps = λ d. seen-Same d _ (disk.temp_keeps d);
    write_keeps = λ t b d. seen-Same d _ (disk.write_keeps t b d);
    sync_keeps = λ t d. seen-Same d _ (disk.sync_keeps t d);
    owner_keeps = λ t d. seen-Same d _ (disk.owner_keeps t d);
    random_keeps = λ n d. seen-Same d _ (disk.random_keeps n d);
    persist_keeps = λ t d h. seen-Same d _ (disk.persist_keeps t d h);
    temp_empty = λ t d h. disk.temp_empty t d h;
    writes = λ t b d h. disk.writes t b d h;
    sync_written = λ t d. disk.sync_written t d;
    owner_written = λ t d. disk.owner_written t d;
    persists = λ t d h. let (there, found) = disk.persists t d h in rw found there;
    random_length = λ n d. disk.random_length n d;
  }
