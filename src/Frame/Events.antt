-- ===== src/Frame/Events.antt =====
-- The events that a pallet deposits with `frame_system`, as a log that a client reads.
use mathlib.Core.List.{append-nil, append_assoc, foldl-append}
use cyborg_chain.Prelude.{◌≡◌, refl, sym, List, [], ◌∷◌, ◌++◌, foldl}

-- `read_event` takes an event into the client's view; `Allowed` says which events make sense in
-- a view.
module _ {V E : Type 0} (read_event : V → E → V) (Allowed : V → E → Type 0) where
  -- Every event of the log makes sense after those before it.
  abbrev pub IsLog : V → List E → Type 0
  IsLog v [] = Unit
  IsLog v (e ∷ es) = Allowed v e × IsLog (read_event v e) es

  IsLog-append :
      (v : V) (es fs : List E) → IsLog v es → IsLog (foldl read_event v es) fs → IsLog v (es ++ fs)
  IsLog-append v [] fs h k = k
  IsLog-append v (e ∷ es) fs h k = (h.0, IsLog-append (read_event v e) es fs h.1 k)

module _ {S V E : Type 0} (view : S → V) (events : S → List E) (read_event : V → E → V)
    (Allowed : V → E → Type 0) where
  -- From `s` to `t` the events `news` were deposited, each of which makes sense where it stands,
  -- and they account for all that has changed in the client's view.
  pub record IsReplay (s t : S) (news : List E) : Type 0 where
    pub deposited : events t ≡ events s ++ news
    pub replayed : view t ≡ foldl read_event (view s) news
    pub allowed : IsLog read_event Allowed (view s) news

  pub IsReplay-refl : (s : S) → IsReplay s s []
  IsReplay-refl s = record {
    deposited = sym (append-nil (events s));
    replayed = refl;
    allowed = tt;
  }

  pub IsReplay-trans :
      (s t u : S) (es fs : List E) → IsReplay s t es → IsReplay t u fs → IsReplay s u (es ++ fs)
  IsReplay-trans s t u es fs p q = record {
    deposited = rw (q.deposited, p.deposited) (append_assoc (events s) es fs);
    replayed = rw (foldl-append read_event (view s) es fs, ← p.replayed) q.replayed;
    allowed =
        IsLog-append read_event Allowed (view s) es fs p.allowed (rw (← p.replayed) q.allowed);
  }
