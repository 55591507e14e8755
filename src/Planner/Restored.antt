-- ===== src/Planner/Restored.antt =====
-- The parse state that one plan saves is what the next one restores.
use dbtv.Common.{String, ◌≡◌, refl, true, false, ◌==◌, eq_iff}
use dbtv.Planner.Commands.{Workshop, is_restorable, save}

-- Files behave as files: a copy and a written file exist, reading gives what was written, and other
-- files stay.
pub record IsFaithful {Disk : Type 0} (shop : Workshop Disk) : Type 0 where
  pub file-copy : (a b : String) (d : Disk) → shop.is_file (shop.copy a b d) b ≡ true
  pub file-write : (p t : String) (d : Disk) → shop.is_file (shop.write_text p t d) p ≡ true
  pub read-write : (p t : String) (d : Disk) → shop.read_text (shop.write_text p t d) p ≡ t
  pub file-write_other :
      (p q t : String) (d : Disk)
      → (p == q) ≡ false
      → shop.is_file (shop.write_text p t d) q ≡ shop.is_file d q
  pub sha-write_other :
      (p q t : String) (d : Disk)
      → (p == q) ≡ false
      → shop.sha256_file (shop.write_text p t d) q ≡ shop.sha256_file d q
  pub apart :
      (dir : String) → (shop.join dir "checksum" == shop.join dir "partial_parse.msgpack") ≡ false

-- After a plan with a cache of parse states, for which dbt left one, the state is restorable.
pub save-is_restorable :
    {Disk : Type 0} (shop : Workshop Disk) (law : IsFaithful shop) (cache_dir target_path : String)
    (disk : Disk)
    → shop.is_file disk (shop.join target_path "partial_parse.msgpack") ≡ true
    → is_restorable shop true true cache_dir (save shop true true cache_dir target_path disk) ≡ true
unfolding is_restorable
save-is_restorable shop law cache_dir target_path disk h =
    let generated = shop.join target_path "partial_parse.msgpack" in
    let cached = shop.join cache_dir "partial_parse.msgpack" in
    let checksum = shop.join cache_dir "checksum" in
    let copied = shop.copy generated cached (shop.make_directory cache_dir disk) in
    let digest = shop.sha256_file copied cached in
    rw
      (
        h,
        law.file-write_other checksum cached digest copied (law.apart cache_dir),
        law.file-copy generated cached (shop.make_directory cache_dir disk),
        law.file-write checksum digest copied,
        law.read-write checksum digest copied,
        law.sha-write_other checksum cached digest copied (law.apart cache_dir),
      )
      ((eq_iff digest digest).1 refl)
