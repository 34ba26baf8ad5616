-- ===== src/Protocol/Cursor/Stream.antt =====
-- replica-cursor.ts: streams of mutations, one after the other.
use zhongduan.Base.{
  ℕ, ◌+◌, ◌≡◌, ◌≢◌, refl, sym, ◌∙◌, ◌⊎◌, inl, inr, List, [], ◌∷◌, ◌++◌, ◌==◌, if◌then◌else◌, length,
  Result, ok, err, ◌>>=◌, arith, bind_inv, require_inv, ==_iff, Result-cases,
}
use zhongduan.Protocol.Errors.{ProtocolErrorCode}
use zhongduan.Protocol.Frame.{DataFrame, pty_output, resize_applied}
use zhongduan.Protocol.Cursor.{ReplicaCursor, AppliedMutation, advance, apply_mutation_cursor}

-- How far a mutation moves the byte stream of the terminal.
abbrev pub output_bytes : DataFrame → ℕ
output_bytes frame = if frame.kind == pty_output then length frame.payload else 0

abbrev pub total_output : List DataFrame → ℕ
total_output [] = 0
total_output (f ∷ fs) = output_bytes f + total_output fs

-- A replica that applies frames one after the other, and stops at the first refusal.
unfoldable pub apply_all : ReplicaCursor → List DataFrame → Result ProtocolErrorCode ReplicaCursor
apply_all cursor [] = ok cursor
apply_all cursor (f ∷ fs) =
    apply_mutation_cursor cursor f >>= λ applied. apply_all applied.cursor fs

-- What a frame that is accepted looks like, and where the cursor goes.
pub record Advances (cursor : ReplicaCursor) (frame : DataFrame) (next : ReplicaCursor)
    : Type 0 where
  pub epoch : frame.session_epoch ≡ cursor.session_epoch
  pub generation : frame.delivery_generation ≡ cursor.delivery_generation
  pub event : frame.event_seq ≡ cursor.last_event_seq + 1
  pub offset : frame.pty_offset ≡ cursor.next_pty_offset
  pub mutation : (frame.kind ≡ pty_output) ⊎ (frame.kind ≡ resize_applied)
  pub same_epoch : next.session_epoch ≡ cursor.session_epoch
  pub same_generation : next.delivery_generation ≡ cursor.delivery_generation
  pub next_event : next.last_event_seq ≡ cursor.last_event_seq + 1
  pub next_offset : next.next_pty_offset ≡ cursor.next_pty_offset + output_bytes frame

advance-Advances :
    (c : ReplicaCursor) (f : DataFrame) (a : AppliedMutation)
    → f.session_epoch ≡ c.session_epoch
    → f.delivery_generation ≡ c.delivery_generation
    → f.event_seq ≡ c.last_event_seq + 1
    → f.pty_offset ≡ c.next_pty_offset
    → advance c f ≡ ok a
    → Advances c f a.cursor
unfolding advance
advance-Advances c f a e1 e2 e3 e4 h = ground arith

pub apply-Advances :
    (c : ReplicaCursor) (f : DataFrame) (a : AppliedMutation)
    → apply_mutation_cursor c f ≡ ok a
    → Advances c f a.cursor
unfolding apply_mutation_cursor
apply-Advances c f a h =
    let (e1, h1) = require_inv _ _ _ h in
    let (e2, h2) = require_inv _ _ _ h1 in
    let (e3, h3) = require_inv _ _ _ h2 in
    let (e4, h4) = require_inv _ _ _ h3 in
    advance-Advances c f a ((==_iff _ _).0 e1) ((==_iff _ _).0 e2) ((==_iff _ _).0 e3)
      ((==_iff _ _).0 e4) h4

-- A stream that is accepted whole moves the event number by one for each frame and the offset by
-- the output bytes, within one epoch and one generation.
pub apply_all-advances :
    (fs : List DataFrame) (c d : ReplicaCursor)
    → apply_all c fs ≡ ok d
    → (d.session_epoch ≡ c.session_epoch)
      × (d.delivery_generation ≡ c.delivery_generation)
      × (d.last_event_seq ≡ c.last_event_seq + length fs)
      × (d.next_pty_offset ≡ c.next_pty_offset + total_output fs)
unfolding apply_all
apply_all-advances [] c d h = ground arith
apply_all-advances (f ∷ fs) c d h =
    let (a, e, k) = bind_inv (apply_mutation_cursor c f) _ h in
    let v = apply-Advances c f a e in
    let (p, q, r, s) = apply_all-advances fs a.cursor d k in
    (p ∙ v.same_epoch, q ∙ v.same_generation, omega arith, omega arith)

stale :
    (c : ReplicaCursor) (f : DataFrame)
    → f.session_epoch ≡ c.session_epoch
    → f.delivery_generation ≡ c.delivery_generation
    → f.event_seq ≢ c.last_event_seq + 1
    → apply_mutation_cursor c f ≡ err ProtocolErrorCode.event_gap
unfolding apply_mutation_cursor
stale c f e g h = ground arith

-- A frame that was applied is refused as a gap when it comes again, at once or behind any further
-- frames that were accepted: no mutation is applied twice.
pub applied_twice :
    (c d : ReplicaCursor) (f : DataFrame) (fs : List DataFrame) (a : AppliedMutation)
    → apply_mutation_cursor c f ≡ ok a
    → apply_all a.cursor fs ≡ ok d
    → apply_mutation_cursor d f ≡ err ProtocolErrorCode.event_gap
applied_twice c d f fs a h k =
    let v = apply-Advances c f a h in
    let (p, q, r, _) = apply_all-advances fs a.cursor d k in
    stale d f (v.epoch ∙ sym v.same_epoch ∙ sym p) (v.generation ∙ sym v.same_generation ∙ sym q)
      (λ e. omega arith)

-- Two replicas that start at one cursor and apply the whole of two streams, the second of which is
-- the first with more frames behind: the longer run is the shorter one continued.
pub apply_all-append :
    (fs gs : List DataFrame) (c : ReplicaCursor)
    → apply_all c (fs ++ gs) ≡ (apply_all c fs >>= λ d. apply_all d gs)
unfolding apply_all
apply_all-append [] gs c = refl
apply_all-append (f ∷ fs) gs c = elim (Result-cases (apply_mutation_cursor c f)) [
  | inl (a, e) ↦ rw e (apply_all-append fs gs a.cursor)
  | inr (x, e) ↦ rw e
]
