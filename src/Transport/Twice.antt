-- ===== src/Transport/Twice.antt =====
-- The whole loop of `sync_transport_boundary`, once and twice (gpt_transport_boundary.py).
use crt_master.Base.{
  All, Bool, Error, Option, Result, Result-cases, String, [], ap, arith, err, false, inl, inr,
  length, ok, refl, some, suc, sym, true, ℕ, ◌+◌, ◌∙◌, ◌∷◌, ◌≡◌,
}
use crt_master.Runtime.{Runtime, Value}
use crt_master.Transport.Mirror.{
  Mirrored, SyncResult, count_in, insert_name, name_leb, none_synced, sorted_files, sync_loop,
  sync_transport_boundary,
}
use crt_master.Transport.Ensure.{file_at}
use crt_master.Transport.Synced.{Dir, IsMirrored, turn, turn-IsMirrored, turn-again, turn-keeps}

module _ (rt : Runtime) (Text : Type 0) (pretty : Value rt → Text)
    (parse : Text → Option (Value rt)) where
  abbrev Boxes : Type 0
  Boxes = Dir rt Text pretty parse

  abbrev Looped : Type 0
  Looped = Boxes × Result (SyncResult rt)

  abbrev loop : Boxes → Boxes → (String → Option Text) → SyncResult rt → Looped
  loop = sync_loop rt Text pretty parse

  abbrev file_turn : Boxes → String × Text → Option Text → Boxes × Result (Mirrored rt)
  file_turn = turn rt Text pretty parse

  abbrev pub found_at : Boxes → String → Option Text
  found_at = file_at rt Text pretty parse

  loop-err :
      (states : Boxes) (f : String × Text) (fs : Boxes) (a : String → Option Text)
      (so_far : SyncResult rt) {e : Error}
      → (file_turn states f (a f.0)).1 ≡ err e
      → loop states (f ∷ fs) a so_far ≡ ((file_turn states f (a f.0)).0, err e)
  unfolding sync_loop
  loop-err states f fs a so_far h = rw (h, sync_loop) refl

  loop-ok :
      (states : Boxes) (f : String × Text) (fs : Boxes) (a : String → Option Text)
      (so_far : SyncResult rt) {r : Mirrored rt}
      → (file_turn states f (a f.0)).1 ≡ ok r
      → loop states (f ∷ fs) a so_far
        ≡ loop (file_turn states f (a f.0)).0 fs a (count_in rt r so_far)
  unfolding sync_loop
  loop-ok states f fs a so_far h = rw (h, sync_loop) refl

  loop-keeps :
      (states fs : Boxes) (a : String → Option Text) (so_far : SyncResult rt) (name : String)
      (text : Text)
      → found_at states name ≡ some text
      → found_at (loop states fs a so_far).0 name ≡ some text
  unfolding sync_loop
  loop-keeps states [] a so_far name text h = h
  loop-keeps states (f ∷ fs) a so_far name text h =
      let kept = turn-keeps rt Text pretty parse states f (a f.0) name text h in
      elim (Result-cases (file_turn states f (a f.0)).1) [
        | inl (r, k) ↦
            ap (λ (o : Looped). found_at o.0 name) (loop-ok states f fs a so_far k)
            ∙ loop-keeps (file_turn states f (a f.0)).0 fs a (count_in rt r so_far) name text kept
        | inr (e, k) ↦
            ap (λ (o : Looped). found_at o.0 name) (loop-err states f fs a so_far k) ∙ kept
      ]

  clash :
      (s s' : Boxes) (e : Error) (r : SyncResult rt) → ◌≡◌ {A = Looped} (s, err e) (s', ok r) → ⊥
  clash s s' e r h = cc

  pair_of : (o : Boxes × Result (Mirrored rt)) {r : Mirrored rt} → o.1 ≡ ok r → o ≡ (o.0, ok r)
  pair_of (s, m) h = ap (λ (x : Result (Mirrored rt)). (s, x)) h

  loop-IsMirrored :
      (states fs : Boxes) (a : String → Option Text) (so_far : SyncResult rt) (states' : Boxes)
      (s : SyncResult rt)
      → loop states fs a so_far ≡ (states', ok s)
      → All (IsMirrored rt Text pretty parse states') fs
  loop-IsMirrored states [] a so_far states' s h = tt
  loop-IsMirrored states (f ∷ fs) a so_far states' s h =
      elim (Result-cases (file_turn states f (a f.0)).1) [
        | inr (e, k) ↦ absurd (clash _ states' e s (sym (loop-err states f fs a so_far k) ∙ h))
        | inl (r, k) ↦
            let rest = sym (loop-ok states f fs a so_far k) ∙ h in
            let next = (file_turn states f (a f.0)).0 in
            let (key, event, mirrored) =
              turn-IsMirrored rt Text pretty parse states f (a f.0) next r (pair_of _ k) in
            let (text, found, stored) = mirrored in
            (
              (
                key,
                event,
                (
                  text,
                  ap (λ (o : Looped). found_at o.0 key.0) (sym rest)
                      ∙ loop-keeps next fs a (count_in rt r so_far) key.0 text found,
                  stored,
                ),
              ),
              loop-IsMirrored next fs a (count_in rt r so_far) states' s rest,
            )
      ]

  -- What a loop over files that are all mirrored returns.
  abbrev pub Unchanged : Boxes → ℕ → SyncResult rt → Looped → Type 0
  Unchanged states k so_far o =
      (s : SyncResult rt) × (o ≡ (states, ok s))
      × (s.created ≡ so_far.created)
      × (s.existing ≡ k + so_far.existing)

  created-exists :
      (r : Mirrored rt) (so_far : SyncResult rt)
      → r.state ≡ "BOUNDARY_EXISTS"
      → ((count_in rt r so_far).created ≡ so_far.created)
        × ((count_in rt r so_far).existing ≡ suc so_far.existing)
  created-exists r so_far h = (rw (h) refl, rw (h) refl)

  one_more : (k n m e : ℕ) → m ≡ suc n → e ≡ k + m → e ≡ suc k + n
  one_more k n m e h j = omega arith

  loop-again :
      (states fs : Boxes) (a : String → Option Text) (so_far : SyncResult rt)
      → All (IsMirrored rt Text pretty parse states) fs
      → Unchanged states (length fs) so_far (loop states fs a so_far)
  unfolding sync_loop
  loop-again states [] a so_far all_there = (so_far, refl, refl, omega arith)
  loop-again states (f ∷ fs) a so_far (this, rest) =
      let (r, same, said) = turn-again rt Text pretty parse states f (a f.0) this in
      let (s, went, made, were) = loop-again states fs a (count_in rt r so_far) rest in
      let (made_less, were_less) = created-exists r so_far said in
      let stepped =
        loop-ok states f fs a so_far (ap (λ (o : Boxes × Result (Mirrored rt)). o.1) same) in
      (
        s,
        stepped
            ∙ (ap (λ (o : Boxes × Result (Mirrored rt)). loop o.0 fs a (count_in rt r so_far)) same
                ∙ went),
        made ∙ made_less,
        one_more (length fs) so_far.existing (count_in rt r so_far).existing s.existing were_less
            were,
      )

  insert_by :
      (P : String × Text → Type 0) (b : Bool) (f g : String × Text) (gs rest : Boxes)
      → All P (elim b [ true ↦ f ∷ g ∷ gs | false ↦ g ∷ rest ])
      → (All P rest → P f × All P gs)
      → P f × (P g × All P gs)
  insert_by P true f g gs rest h k = h
  insert_by P false f g gs rest (here, there) k =
      let (first, others) = k there in (first, (here, others))

  All-insert_name :
      (P : String × Text → Type 0) (f : String × Text) (fs : Boxes)
      → All P (insert_name rt Text pretty parse f fs)
      → P f × All P fs
  unfolding insert_name
  All-insert_name P f [] h = h
  All-insert_name P f (g ∷ gs) h =
      insert_by P (name_leb rt Text pretty parse f g) f g gs (insert_name rt Text pretty parse f gs)
        h (All-insert_name P f gs)

  All-sorted_files :
      (P : String × Text → Type 0) (fs : Boxes)
      → All P (sorted_files rt Text pretty parse fs)
      → All P fs
  unfolding sorted_files
  All-sorted_files P [] h = tt
  All-sorted_files P (f ∷ fs) h =
      let (first, rest) = All-insert_name P f (sorted_files rt Text pretty parse fs) h in
      (first, All-sorted_files P fs rest)

  length_by :
      (b : Bool) (f g : String × Text) (gs rest : Boxes)
      → length rest ≡ suc (length gs)
      → length (elim b [ true ↦ f ∷ g ∷ gs | false ↦ g ∷ rest ]) ≡ suc (suc (length gs))
  length_by true f g gs rest h = refl
  length_by false f g gs rest h = ap suc h

  length-insert_name :
      (f : String × Text) (fs : Boxes)
      → length (insert_name rt Text pretty parse f fs) ≡ suc (length fs)
  unfolding insert_name
  length-insert_name f [] = refl
  length-insert_name f (g ∷ gs) =
      length_by (name_leb rt Text pretty parse f g) f g gs (insert_name rt Text pretty parse f gs)
        (length-insert_name f gs)

  length-sorted_files : (fs : Boxes) → length (sorted_files rt Text pretty parse fs) ≡ length fs
  unfolding sorted_files
  length-sorted_files [] = refl
  length-sorted_files (f ∷ fs) =
      length-insert_name f (sorted_files rt Text pretty parse fs) ∙ ap suc (length-sorted_files fs)

  abbrev pub sync : Boxes → Boxes → (String → Option Text) → Looped
  sync outbox states a = sync_transport_boundary rt Text pretty parse (some outbox) states a

  -- After a sync that returned, whatever other processes put there meanwhile: each file of the outbox
  -- is a valid payload under the name of its event, and the state file of that event parses to a
  -- valid state of the same event and payload hash.
  pub sync_transport_boundary-IsMirrored :
      (outbox states : Boxes) (a : String → Option Text) (states' : Boxes) (s : SyncResult rt)
      → sync outbox states a ≡ (states', ok s)
      → All (IsMirrored rt Text pretty parse states') outbox
  unfolding sync_transport_boundary
  sync_transport_boundary-IsMirrored outbox states a states' s h =
      All-sorted_files (IsMirrored rt Text pretty parse states') outbox (
        loop-IsMirrored states (sorted_files rt Text pretty parse outbox) a (none_synced rt) states'
          s h)

  -- Whatever a sync does, returning or raising, each state file is there with the text it had.
  pub sync_transport_boundary-keeps :
      (outbox states : Boxes) (a : String → Option Text) (name : String) (text : Text)
      → found_at states name ≡ some text
      → found_at (sync outbox states a).0 name ≡ some text
  unfolding sync_transport_boundary
  sync_transport_boundary-keeps outbox states a name text h =
      loop-keeps states (sorted_files rt Text pretty parse outbox) a (none_synced rt) name text h

  -- After a sync that returned, a sync of the same outbox returns, leaves the state files as they are,
  -- and counts none created and every file as existing.
  pub sync_transport_boundary-again :
      (outbox states : Boxes) (a a' : String → Option Text) (states' : Boxes) (s : SyncResult rt)
      → sync outbox states a ≡ (states', ok s)
      → (s' : SyncResult rt) × (sync outbox states' a' ≡ (states', ok s'))
        × (s'.created ≡ 0)
        × (s'.existing ≡ length outbox)
  unfolding sync_transport_boundary
  sync_transport_boundary-again outbox states a a' states' s h =
      let files = sorted_files rt Text pretty parse outbox in
      let (s', same, made, were) =
        loop-again states' files a' (none_synced rt)
          (loop-IsMirrored states files a (none_synced rt) states' s h) in
      (s', same, made, omega (arith, were, length-sorted_files outbox))
