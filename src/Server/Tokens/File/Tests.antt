-- ===== src/Server/Tokens/File/Tests.antt =====
-- A persist that is cut short before and after the rename.
use whdr.Common.{
  ℕ, ◌≡◌, refl, [], ◌∷◌, none, some, true, Text, codes, Result, ok, err, nat_eq, split,
  trim_start_matches, trim_end_matches,
}
use whdr.Server.Tokens.{TokenStore, TokenError, not_persisted}
use whdr.Server.Tokens.File.{File, Disk, persist_steps, persist, store_mode, load_or_empty}
use whdr.Server.Tokens.File.Separated.{print, toml}
use whdr.Server.Tokens.File.Durable.{AfterLoss, undone, IsSettled, Loads, persist-Loads}

abbrev tokens : Text → TokenStore
tokens hash = (codes "p", record { hash = hash; created = codes "now" }) ∷ []

abbrev file_of : TokenStore → File
file_of s = record { text = print s; mode = 33152; is_synced = true }

abbrev disk : Disk
disk = record { file = some (file_of (tokens (codes "old"))); tmp = none; replaced = none }

abbrev persisted : ℕ → Disk × Result (Unit {0}) TokenError
persisted works = persist works 33188 (print (tokens (codes "new"))) disk

reads :
    (load_or_empty toml (persisted 5).0.file ≡ ok (tokens (codes "old")))
    × ((persisted 5).1 ≡ err not_persisted)
    × (load_or_empty toml (persisted 6).0.file ≡ ok (tokens (codes "new")))
    × ((persisted 6).1 ≡ err not_persisted)
    × ((persisted 7).1 ≡ ok tt)
    × (load_or_empty toml none ≡ ok [])
    × (load_or_empty toml (some (record (file_of []) { mode = 33188 })) ≡ err store_mode)
unfolding persist persist_steps load_or_empty split trim_start_matches trim_end_matches
reads = (refl, refl, refl, refl, refl, refl, refl)

settled : IsSettled disk
settled = record { no_rename = refl; synced = λ f e. cc }

loads_old : load_or_empty toml disk.file ≡ ok (tokens (codes "old"))
unfolding load_or_empty split trim_start_matches trim_end_matches
loads_old = refl

-- The rename is done and lost again.
lost : AfterLoss (persisted 6).0 disk.file
unfolding persist persist_steps
lost = undone refl

persist-Loads_example :
    Loads toml disk.file (tokens (codes "old")) (tokens (codes "new")) (persisted 6).1
persist-Loads_example =
    persist-Loads toml disk (tokens (codes "old")) (tokens (codes "new")) 6 33188 settled loads_old
      disk.file lost
