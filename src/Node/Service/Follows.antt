-- ===== src/Node/Service/Follows.antt =====
-- What an action of node/src/service.rs has started when it ends, whether or not a call of a library
-- fails on the way: the labels of the effects, and the rule for each way to build an action.
use cyborg_chain.Prelude.{
  Option, some, none, or_panic, if◌then◌else◌, Bytes, Result, ok, err, panic, pure, ◌≡◌, refl, sym,
  ap, ◌≢◌, Bool, true, false, List, [], ◌∷◌, ◌++◌, map,
}
use cyborg_chain.Node.Service.{
  Libraries, Effect, spawn, spawn_essential_blocking, generate_key, serve, start_network,
  ServiceAction, try, emit,
}
use mathlib.Core.List.{append_assoc, append-nil}
use cyborg_chain.Node.Action.{◌>>=◌, next}

-- An effect without its task: what is started, and whether its end takes the node down; and of a
-- key its type.
pub data Label : Type 0 where
  background essential : (name : Bytes) → Label
  key : (key_type : Bytes) → Label
  rpc networking : Label

abbrev pub only_if : Bool → List Label → List Label
only_if b ls = if b then ls else []

-- A run that has started the labels `ls` after those of `s`, or has failed after some of them.
pub data Follows {A E : Type 0} (before : List Label) (ls : List Label) (r : Result E A)
    (after : List Label) : Type 0 where
  completed : (a : A) → r ≡ ok a → after ≡ before ++ ls → Follows before ls r after
  stopped :
      (done rest : List Label)
      → ((a : A) → r ≢ ok a)
      → done ++ rest ≡ ls
      → after ≡ before ++ done
      → Follows before ls r after

module _ (libs : Libraries) where
  open libs use {Error, Keystore}

  abbrev pub label : Effect libs → Label
  label (spawn name group t) = background name
  label (spawn_essential_blocking name group t) = essential name
  label (generate_key key_type seed) = key key_type
  label serve = rpc
  label (start_network starter) = networking

  abbrev pub labels : List (Effect libs) → List Label
  labels = map label

  abbrev pub FollowsAll : {A : Type 0} → ServiceAction libs A → List Label → Type 0
  FollowsAll m ls = (s : List (Effect libs)) → Follows (labels s) ls (m s).0 (labels (m s).1)

  pub labels-emit :
      (s : List (Effect libs)) (e : Effect libs) → labels (s ++ e ∷ []) ≡ labels s ++ label e ∷ []
  labels-emit [] e = refl
  labels-emit (x ∷ s) e = ap (λ (ls : List Label). label x ∷ ls) (labels-emit s e)

  pub Follows-try : {A : Type 0} (r : Result Error A) → FollowsAll (try libs r) []
  Follows-try (ok a) s = completed a refl (sym (append-nil (labels s)))
  Follows-try (err e) s = stopped [] [] (λ a. cc) refl (sym (append-nil (labels s)))
  Follows-try panic s = stopped [] [] (λ a. cc) refl (sym (append-nil (labels s)))

  pub Follows-or_panic : {A : Type 0} (o : Option A) → FollowsAll (or_panic o) []
  Follows-or_panic (some a) s = completed a refl (sym (append-nil (labels s)))
  Follows-or_panic none s = stopped [] [] (λ a. cc) refl (sym (append-nil (labels s)))

  pub Follows-emit : (e : Effect libs) → FollowsAll (emit libs e) (label e ∷ [])
  unfolding emit
  Follows-emit e s = completed tt refl (labels-emit s e)

  pub Follows-pure : {A : Type 0} (a : A) → FollowsAll (pure a) []
  Follows-pure a s = completed a refl (sym (append-nil (labels s)))

  pub Follows-append :
      {B : Type 0} (before middle ls ks : List Label) (r : Result Error B) (after : List Label)
      → middle ≡ before ++ ls
      → Follows middle ks r after
      → Follows before (ls ++ ks) r after
  Follows-append before middle ls ks r after e (completed b ok_b h) =
      completed b ok_b (cc (h, e, append_assoc before ls ks))
  Follows-append before middle ls ks r after e (stopped done rest fails split h) =
      stopped (ls ++ done) rest fails (cc (split, append_assoc ls done rest))
        (cc (h, e, append_assoc before ls done))

  Follows-next :
      {A B : Type 0} (f : A → ServiceAction libs B) (before ls ks : List Label) (r : Result Error A)
      (s : List (Effect libs))
      → Follows before ls r (labels s)
      → ((a : A) → FollowsAll (f a) ks)
      → Follows before (ls ++ ks) (next f r s).0 (labels (next f r s).1)
  Follows-next f before ls ks (ok a) s (completed b e h) hf =
      Follows-append before (labels s) ls ks (f a s).0 (labels (f a s).1) h (hf a s)
  Follows-next f before ls ks (ok a) s (stopped done rest fails split h) hf = absurd (fails a refl)
  Follows-next f before ls ks (err x) s (completed b e h) hf = absurd (cc)
  Follows-next f before ls ks (err x) s (stopped done rest fails split h) hf =
      stopped done (rest ++ ks) (λ b. cc) (cc (split, append_assoc done rest ks)) h
  Follows-next f before ls ks panic s (completed b e h) hf = absurd (cc)
  Follows-next f before ls ks panic s (stopped done rest fails split h) hf =
      stopped done (rest ++ ks) (λ b. cc) (cc (split, append_assoc done rest ks)) h

  pub Follows-bind :
      {A B : Type 0} (m : ServiceAction libs A) (f : A → ServiceAction libs B) (ls ks : List Label)
      → FollowsAll m ls
      → ((a : A) → FollowsAll (f a) ks)
      → FollowsAll (m >>= f) (ls ++ ks)
  unfolding ◌>>=◌
  Follows-bind m f ls ks hm hf s = Follows-next f (labels s) ls ks (m s).0 (m s).1 (hm s) hf

  pub Follows-if :
      (b : Bool) (m : ServiceAction libs (Unit {0})) (ls : List Label)
      → FollowsAll m ls
      → FollowsAll (if b then m else pure tt) (only_if b ls)
  Follows-if true m ls h = h
  Follows-if false m ls h = Follows-pure tt
