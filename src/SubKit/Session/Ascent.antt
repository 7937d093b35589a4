-- ===== src/SubKit/Session/Ascent.antt =====
-- What a run of the client does with the events: their numbers only go up, and the cursor is saved for
-- those that the handler took.
use whdr.Common.{
  ℕ, ◌<◌, ◌≤◌, ◌≡◌, refl, sym, ap, ◌∙◌, List, [], ◌∷◌, ◌++◌, Bool, true, false, if◌then◌else◌,
  nat_eq, text_eq, arith,
}
use mathlib.Core.List.{append_assoc, append-nil}
use whdr.SubKit.Resume.{ResumeState}
use whdr.SubKit.Session.{Call, on_event, save, World, DeliveredEvent}

-- Strictly ascending numbers, above `lo` and up to `hi`.
abbrev pub AscendingTo : ℕ → List ℕ → ℕ → Type 0
AscendingTo lo [] hi = lo ≤ hi
AscendingTo lo (n ∷ ns) hi = (lo < n) × AscendingTo n ns hi

abbrev pub Ascending : ℕ → List ℕ → Type 0
Ascending lo [] = Unit
Ascending lo (n ∷ ns) = (lo < n) × Ascending n ns

pub Ascending-of_AscendingTo : (lo hi : ℕ) (ns : List ℕ) → AscendingTo lo ns hi → Ascending lo ns
Ascending-of_AscendingTo lo hi [] h = tt
Ascending-of_AscendingTo lo hi (n ∷ ns) h = (h.0, Ascending-of_AscendingTo n hi ns h.1)

AscendingTo-snoc :
    (lo hi n : ℕ) (ns : List ℕ) → AscendingTo lo ns hi → hi < n → AscendingTo lo (ns ++ n ∷ []) n
AscendingTo-snoc lo hi n [] h l = (omega arith, omega arith)
AscendingTo-snoc lo hi n (m ∷ ns) h l = (h.0, AscendingTo-snoc m hi n ns h.1 l)

abbrev pub event_seq : Call → List ℕ
event_seq (on_event event) = event.seq ∷ []
event_seq _ = []

abbrev pub saved : Call → List ℕ
saved (save cursor) = cursor ∷ []
saved _ = []

-- The numbers of the events handed to the handler, and the cursors handed to the store.
abbrev pub seqs : List Call → List ℕ
seqs [] = []
seqs (c ∷ cs) = event_seq c ++ seqs cs

abbrev pub saves : List Call → List ℕ
saves [] = []
saves (c ∷ cs) = saved c ++ saves cs

seqs-append : (xs ys : List Call) → seqs (xs ++ ys) ≡ seqs xs ++ seqs ys
seqs-append [] ys = refl
seqs-append (x ∷ xs) ys =
    ap (λ t. event_seq x ++ t) (seqs-append xs ys)
    ∙ sym (append_assoc (event_seq x) (seqs xs) (seqs ys))

saves-append : (xs ys : List Call) → saves (xs ++ ys) ≡ saves xs ++ saves ys
saves-append [] ys = refl
saves-append (x ∷ xs) ys =
    ap (λ t. saved x ++ t) (saves-append xs ys) ∙ sym (append_assoc (saved x) (saves xs) (saves ys))

module _ (env : List Call → Call → Bool) where
  -- The numbers of the events on which the handler succeeded.
  abbrev pub succeeded : List Call → List Call → List ℕ
  succeeded past [] = []
  succeeded past (c ∷ cs) =
      (if env past c then event_seq c else []) ++ succeeded (past ++ c ∷ []) cs

  succeeded-append :
      (past xs : List Call) (c : Call)
      → succeeded past (xs ++ c ∷ [])
        ≡ succeeded past xs ++ (if env (past ++ xs) c then event_seq c else [])
  succeeded-append past [] c =
      rw (append-nil past, append-nil (if env past c then event_seq c else []))
  succeeded-append past (x ∷ xs) c =
      rw (succeeded-append (past ++ x ∷ []) xs c, append_assoc past (x ∷ []) xs)
        (sym (
          append_assoc (if env past x then event_seq x else []) (succeeded (past ++ x ∷ []) xs)
            (if env (past ++ x ∷ xs) c then event_seq c else [])))

  pub record Progress (start : ℕ) (w : World) : Type 0 where
    pub ascending : AscendingTo start (seqs w.calls) w.resume.cursor
    pub saved_eq : saves w.calls ≡ succeeded [] w.calls

  -- What is left of it where the handler has failed.
  pub record Outcome (start : ℕ) (w : World) : Type 0 where
    pub ascending : Ascending start (seqs w.calls)
    pub saved_eq : saves w.calls ≡ succeeded [] w.calls

  pub Outcome-of_Progress : (start : ℕ) (w : World) → Progress start w → Outcome start w
  Outcome-of_Progress start w p = record {
    ascending = Ascending-of_AscendingTo start w.resume.cursor (seqs w.calls) p.ascending;
    saved_eq = p.saved_eq;
  }

  abbrev pub Quiet : Call → Type 0
  Quiet c = (event_seq c ≡ []) × (saved c ≡ [])

  Quiet-succeeded : (b : Bool) (c : Call) → Quiet c → (if b then event_seq c else []) ≡ []
  Quiet-succeeded true c q = q.0
  Quiet-succeeded false c q = refl

  no_event : (b : Bool) → ◌≡◌ {A = List ℕ} (if b then [] else []) []
  no_event true = refl
  no_event false = refl

  -- A call that is neither of an event nor of the store changes nothing here.
  pub called-Progress :
      (start attempt : ℕ) (w : World) (c : Call)
      → Quiet c
      → Progress start w
      → Progress start (record w { attempt = attempt; calls = w.calls ++ c ∷ [] })
  called-Progress start attempt w c q p = record {
    ascending = rw (seqs-append w.calls (c ∷ []), q.0, append-nil (seqs w.calls)) p.ascending;
    saved_eq =
        rw
          (
            saves-append w.calls (c ∷ []),
            q.1,
            append-nil (saves w.calls),
            succeeded-append [] w.calls c,
            Quiet-succeeded (env w.calls c) c q,
            append-nil (succeeded [] w.calls),
          )
          p.saved_eq;
  }

  -- The handler has failed on a new event.
  pub failed-Outcome :
      (start : ℕ) (w : World) (event : DeliveredEvent)
      → w.resume.cursor < event.seq
      → env w.calls (on_event event) ≡ false
      → Progress start w
      → Outcome start (record w { calls = w.calls ++ on_event event ∷ [] })
  failed-Outcome start w event new h p = record {
    ascending = rw (seqs-append w.calls (on_event event ∷ [])) (
        Ascending-of_AscendingTo start event.seq (seqs w.calls ++ event.seq ∷ [])
          (AscendingTo-snoc start w.resume.cursor event.seq (seqs w.calls) p.ascending new));
    saved_eq =
        rw
          (
            saves-append w.calls (on_event event ∷ []),
            append-nil (saves w.calls),
            succeeded-append [] w.calls (on_event event),
            h,
            append-nil (succeeded [] w.calls),
          )
          p.saved_eq;
  }

  -- The handler took a new event, and the store was called with its number.
  pub committed-Progress :
      (start : ℕ) (w : World) (event : DeliveredEvent) (resume : ResumeState)
      → w.resume.cursor < event.seq
      → resume.cursor ≡ event.seq
      → env w.calls (on_event event) ≡ true
      → Progress start w
      → Progress start (record w {
        resume = resume;
        calls = (w.calls ++ on_event event ∷ []) ++ save resume.cursor ∷ [];
      })
  committed-Progress start w event resume new e h p = record {
    ascending =
        rw
          (
            seqs-append (w.calls ++ on_event event ∷ []) (save resume.cursor ∷ []),
            seqs-append w.calls (on_event event ∷ []),
            append-nil (seqs w.calls ++ event.seq ∷ []),
            e,
          )
          (AscendingTo-snoc start w.resume.cursor event.seq (seqs w.calls) p.ascending new);
    saved_eq =
        rw
          (
            saves-append (w.calls ++ on_event event ∷ []) (save resume.cursor ∷ []),
            saves-append w.calls (on_event event ∷ []),
            append-nil (saves w.calls),
            succeeded-append [] (w.calls ++ on_event event ∷ []) (save resume.cursor),
            no_event (env (w.calls ++ on_event event ∷ []) (save resume.cursor)),
            append-nil (succeeded [] (w.calls ++ on_event event ∷ [])),
            succeeded-append [] w.calls (on_event event),
            h,
            e,
          )
          (ap (λ t. t ++ event.seq ∷ []) p.saved_eq);
  }
