-- ===== src/Server/Tokens/File.antt =====
-- The file of crates/whdr-server/src/token_store.rs: load_or_empty and persist. Each file operation of
-- persist is a step on the file and its temporary; `works` is how many of them succeed, or are done when
-- the process is killed. What toml prints and reads is an argument.
pub mod Durable
pub mod Separated
mod Tests
use whdr.Common.{
  ℕ, zero, suc, ◌<◌, List, [], ◌∷◌, Option, none, some, Bool, true, false, Text, Result, ok, err,
  ◌==◌, nat_eq, if◌then◌else◌, is_empty, trim, length, ltb, ◌≡◌,
}
use whdr.Server.Config.{permissions, owner_only}
use whdr.Server.Tokens.{TokenStore, TokenError, not_persisted}

-- `is_synced`: the text is on the disk.
pub record File : Type 0 where
  pub text : Text
  pub mode : ℕ
  pub is_synced : Bool

-- `replaced` is what stood at the path before a rename that the directory does not hold yet.
pub record Disk : Type 0 where
  pub file : Option File
  pub tmp : Option File
  pub replaced : Option (Option File)

abbrev on_tmp : (File → File) → Disk → Disk
on_tmp f d = elim d.tmp [ none ↦ d | some t ↦ record d { tmp = some (f t) } ]

-- The directory of the path holds the same before and after.
abbrev create_dir_all : Disk → Disk
create_dir_all d = d

-- `File::create`, with the mode that the umask leaves.
abbrev pub create : (mode : ℕ) → Disk → Disk
create mode d = record d { tmp = some (record { text = []; mode = mode; is_synced = false }) }

abbrev pub set_permissions : Disk → Disk
set_permissions = on_tmp (λ t. record t { mode = owner_only })

abbrev pub write_all : Text → Disk → Disk
write_all text = on_tmp (λ t. record t { text = text; is_synced = false })

abbrev pub sync_all : Disk → Disk
sync_all = on_tmp (λ t. record t { is_synced = true })

abbrev pub rename : Disk → Disk
rename d = record { file = d.tmp; tmp = none; replaced = some d.file }

abbrev pub sync_dir : Disk → Disk
sync_dir d = record d { replaced = none }

unfoldable pub persist_steps : (mode : ℕ) → Text → List (Disk → Disk)
persist_steps mode text =
    create_dir_all
    ∷ create mode
    ∷ set_permissions
    ∷ write_all text
    ∷ sync_all
    ∷ rename
    ∷ sync_dir
    ∷ []

-- The first steps, as many as work.
abbrev pub run_steps : (works : ℕ) → List (Disk → Disk) → Disk → Disk
run_steps works [] d = d
run_steps zero (step ∷ steps) d = d
run_steps (suc works) (step ∷ steps) d = run_steps works steps (step d)

unfoldable pub persist : (works mode : ℕ) → Text → Disk → Disk × Result (Unit {0}) TokenError
persist works mode text d =
    let steps = persist_steps mode text in
    (run_steps works steps d, (if ltb works (length steps) then err not_persisted else ok tt))

pub data LoadError : Type 0 where
  store_mode parse_failed : LoadError

-- What toml prints reads back, and only no token is printed as a blank text.
pub record Toml : Type 0 where
  pub print : TokenStore → Text
  pub parse : Text → Option TokenStore
  pub parse-print : (s : TokenStore) → parse (print s) ≡ some s
  pub print_blank : (s : TokenStore) → is_empty (trim (print s)) ≡ true → s ≡ []

unfoldable pub load_or_empty : Toml → Option File → Result TokenStore LoadError
load_or_empty toml none = ok []
load_or_empty toml (some file) =
    if permissions file.mode == owner_only
    then if is_empty (trim file.text)
      then ok []
      else elim (toml.parse file.text) [ none ↦ err parse_failed | some s ↦ ok s ]
    else err store_mode
