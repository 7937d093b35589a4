-- ===== src/Server/Tokens/File/Durable.antt =====
-- crates/whdr-server/src/token_store.rs: what a start reads after persist has been cut short.
use whdr.Common.{
  ℕ, zero, suc, ◌≡◌, refl, sym, ap, ◌∙◌, ◌⊎◌, inl, inr, Option, none, some, true, false, Text,
  Result, ok, err, is_empty, trim, Bool-cases,
}
use mathlib.Core.Option.{some-injective}
use whdr.Server.Config.{owner_only}
use whdr.Server.Tokens.{TokenStore, TokenError, not_persisted}
use whdr.Server.Tokens.File.{File, Disk, persist_steps, persist, Toml, load_or_empty}

-- What may stand at the path after the machine has lost what is not on the disk: the file with its text
-- where that is synced and with any text where not, or what stood there before a rename that is not
-- synced.
pub data AfterLoss (d : Disk) : Option File → Type 0 where
  absent : d.file ≡ none → AfterLoss d none
  kept : {f : File} → d.file ≡ some f → f.is_synced ≡ true → AfterLoss d (some f)
  garbled :
      {f : File} (text : Text)
      → d.file ≡ some f
      → f.is_synced ≡ false
      → AfterLoss d (some (record f { text = text }))
  undone : {old : Option File} → d.replaced ≡ some old → AfterLoss d old

-- All of the file is on the disk.
pub record IsSettled (d : Disk) : Type 0 where
  pub no_rename : d.replaced ≡ none
  pub synced : (f : File) → d.file ≡ some f → f.is_synced ≡ true

written : Text → File
written text = record { text = text; mode = owner_only; is_synced = true }

-- The file is there still, or the new one, on the disk but for the rename, or for good. Only the last is
-- a success.
data Persisted (d : Disk) (text : Text) (d' : Disk) (r : Result (Unit {0}) TokenError)
    : Type 0 where
  not_yet :
      d'.file ≡ d.file → d'.replaced ≡ d.replaced → r ≡ err not_persisted → Persisted d text d' r
  renamed :
      d'.file ≡ some (written text)
      → d'.replaced ≡ some d.file
      → r ≡ err not_persisted
      → Persisted d text d' r
  finished : d'.file ≡ some (written text) → d'.replaced ≡ none → Persisted d text d' r

persist-Persisted :
    (works mode : ℕ) (text : Text) (d : Disk)
    → Persisted d text (persist works mode text d).0 (persist works mode text d).1
unfolding persist persist_steps written
persist-Persisted zero mode text d = not_yet refl refl refl
persist-Persisted (suc zero) mode text d = not_yet refl refl refl
persist-Persisted (suc (suc zero)) mode text d = not_yet refl refl refl
persist-Persisted (suc (suc (suc zero))) mode text d = not_yet refl refl refl
persist-Persisted (suc (suc (suc (suc zero)))) mode text d = not_yet refl refl refl
persist-Persisted (suc (suc (suc (suc (suc zero))))) mode text d = not_yet refl refl refl
persist-Persisted (suc (suc (suc (suc (suc (suc zero)))))) mode text d = renamed refl refl refl
persist-Persisted (suc (suc (suc (suc (suc (suc (suc works))))))) mode text d = finished refl refl

-- A file that is on the disk stays, unless a rename over it can be undone.
AfterLoss-cases :
    (d : Disk) (f : Option File)
    → ((g : File) → d.file ≡ some g → g.is_synced ≡ true)
    → AfterLoss d f
    → (f ≡ d.file) ⊎ (d.replaced ≡ some f)
AfterLoss-cases d _ s (absent e) = inl (sym e)
AfterLoss-cases d _ s (kept e synced) = inl (sym e)
AfterLoss-cases d _ s (garbled {f} text e unsynced) = let yes_synced = s f e in cc
AfterLoss-cases d f s (undone e) = inr e

load_written :
    (toml : Toml) (s : TokenStore) → load_or_empty toml (some (written (toml.print s))) ≡ ok s
unfolding load_or_empty written
load_written toml s = elim (Bool-cases (is_empty (trim (toml.print s)))) [
  | inl blank ↦ rw (load_or_empty, blank) (ap ok (sym (toml.print_blank s blank)))
  | inr filled ↦ rw (load_or_empty, filled, toml.parse-print s) refl
]

-- What a start reads.
abbrev pub Loads :
    Toml → Option File → (old new : TokenStore) → Result (Unit {0}) TokenError → Type 0
Loads toml f old new r =
    ((load_or_empty toml f ≡ ok old) ⊎ (load_or_empty toml f ≡ ok new))
    × (r ≡ ok tt → load_or_empty toml f ≡ ok new)

module _ (toml : Toml) (d d' : Disk) (old new : TokenStore) (r : Result (Unit {0}) TokenError)
    (settled : IsSettled d) (loads : load_or_empty toml d.file ≡ ok old) where
  still_old : (f : Option File) → f ≡ d.file → r ≡ err not_persisted → Loads toml f old new r
  still_old f e failed = (inl (ap (load_or_empty toml) e ∙ loads), λ h. cc)

  now_new :
      (f : Option File)
      → f ≡ d'.file
      → d'.file ≡ some (written (toml.print new))
      → Loads toml f old new r
  now_new f e w =
      let read = ap (load_or_empty toml) (e ∙ w) ∙ load_written toml new in (inr read, λ h. read)

  Persisted-Loads :
      (f : Option File)
      → Persisted d (toml.print new) d' r
      → AfterLoss d' f
      → Loads toml f old new r
  unfolding written
  Persisted-Loads f (not_yet same unreplaced failed) loss =
      elim (AfterLoss-cases d' f (λ g e. settled.synced g (sym same ∙ e)) loss) [
        | inl e ↦ still_old f (e ∙ same) failed
        | inr e ↦ let t = sym settled.no_rename ∙ sym unreplaced ∙ e in cc
      ]
  Persisted-Loads f (renamed w undo failed) loss =
      elim (AfterLoss-cases d' f
        (λ g e. ap (λ g. g.is_synced) (some-injective g (written (toml.print new)) (sym e ∙ w)))
        loss) [
          | inl e ↦ now_new f e w
          | inr e ↦ still_old f (some-injective _ _ (sym e ∙ undo)) failed
        ]
  Persisted-Loads f (finished w undo) loss =
      elim (AfterLoss-cases d' f
        (λ g e. ap (λ g. g.is_synced) (some-injective g (written (toml.print new)) (sym e ∙ w)))
        loss) [ inl e ↦ now_new f e w | inr e ↦ let t = sym undo ∙ e in cc ]

-- Persisting tokens over a file that is on the disk and loads: however many of the steps are done, and
-- whatever the machine loses that is not on the disk, the next start reads the old tokens or the new
-- ones, and the new ones where persist has succeeded.
pub persist-Loads :
    (toml : Toml) (d : Disk) (old new : TokenStore) (works mode : ℕ)
    → IsSettled d
    → load_or_empty toml d.file ≡ ok old
    → (f : Option File) → AfterLoss (persist works mode (toml.print new) d).0 f
    → Loads toml f old new (persist works mode (toml.print new) d).1
persist-Loads toml d old new works mode settled loads f loss =
    let (d', r) = persist works mode (toml.print new) d in
    Persisted-Loads toml d d' old new r settled loads f
      (persist-Persisted works mode (toml.print new) d) loss
