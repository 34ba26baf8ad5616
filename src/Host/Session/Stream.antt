-- ===== src/Host/Session/Stream.antt =====
-- session.ts: the stream of frames that a session has published, against the cursor of a replica:
-- `#publish`, `#commitPtyOutput` and `#commitResize`.
use zhongduan.Base.{
  ℕ, ◌+◌, ◌≡◌, refl, ap, ◌∙◌, inl, inr, true, false, List, [], ◌∷◌, ◌++◌, arith, Bool-cases,
  Option-cases, Result-cases, length, ok, ◌==◌, if◌then◌else◌,
}
use zhongduan.Protocol.Frame.{DataFrame, encode_data_frame, decode_data_frame, pty_output}
use zhongduan.Protocol.Frame.RoundTrip.{decode-encode}
use zhongduan.Protocol.Cursor.{ReplicaCursor, AppliedMutation, apply_mutation_cursor}
use zhongduan.Protocol.Cursor.Stream.{apply_all, apply_all-append, output_bytes}
use zhongduan.Host.Journal.{append}
use zhongduan.Host.Journal.Appends.{append_head, entry_of}
use zhongduan.Host.Journal.Chain.{after}
use zhongduan.Host.Journal.Canonical.{AllDecode, AllDecode-append, Canonical, append-Canonical}
use mathlib.Core.List.{append_assoc}
use zhongduan.Host.Session.{
  Environment, Session, Outcome, and_then, write_pty, write_all, publish, publish_next, counted,
  next_frame,
}

-- A replica of session `epoch` that has applied nothing.
abbrev pub blank : ℕ → ReplicaCursor
blank epoch = record {
  session_epoch = epoch;
  delivery_generation = 0;
  last_event_seq = 0;
  next_pty_offset = 0;
}

module _ (env : Environment) where
  abbrev pub cursor_of : Session env → ReplicaCursor
  cursor_of s = record {
    session_epoch = s.session_epoch;
    delivery_generation = 0;
    last_event_seq = s.event_seq;
    next_pty_offset = s.next_pty_offset;
  }

  -- Nothing that a replica sees differs.
  pub record Same (s t : Session env) : Type 0 where
    pub sent : t.sent ≡ s.sent
    pub journal : t.journal ≡ s.journal
    pub epoch : t.session_epoch ≡ s.session_epoch
    pub seq : t.event_seq ≡ s.event_seq
    pub offset : t.next_pty_offset ≡ s.next_pty_offset

-- `base` is what was sent when a replica stood at `start`.
module _ (env : Environment) (base : List (List ℕ)) (start : ReplicaCursor) where
  -- What was sent since then takes that replica to the session's cursor, where the journal ends, which
  -- can be replayed.
  pub record Published (s : Session env) : Type 0 where
    pub later : List (List ℕ)
    pub sent : s.sent ≡ base ++ later
    pub frames : List DataFrame
    pub decoded : AllDecode later frames
    pub applied : apply_all start frames ≡ ok (cursor_of env s)
    pub head :
        s.journal.head_cursor
        ≡ record { last_event_seq = s.event_seq; next_pty_offset = s.next_pty_offset }
    pub journal : Canonical s.session_epoch s.journal

  pub Same-Published : (s t : Session env) → Same env s t → Published s → Published t
  Same-Published s t e p = record {
    later = p.later;
    sent = e.sent ∙ p.sent;
    frames = p.frames;
    decoded = p.decoded;
    applied = rw (e.epoch, e.seq, e.offset) p.applied;
    head = rw (e.journal, e.seq, e.offset) p.head;
    journal = rw (e.journal, e.epoch) p.journal;
  }

  -- What a completed step owes: where it throws nothing is claimed.
  abbrev pub Good : Outcome env → Type 0
  Good o = o.1 ≡ true → Published o.0

  pub and_then-Good :
      (o : Outcome env) (k : Session env → Outcome env)
      → Good o
      → ((t : Session env) → Published t → Good (k t))
      → Good (and_then env o k)
  and_then-Good (t, true) k g h = h t (g refl)
  and_then-Good (t, false) k g h = λ e. cc

  pub write_pty-Good :
      (bytes : List ℕ) (s : Session env) → Published s → Good (write_pty env bytes s)
  unfolding write_pty
  write_pty-Good bytes s p = elim (Bool-cases (length bytes == 0)) [
    | inl e ↦ rw e (λ _. p)
    | inr e ↦ elim (Option-cases (env.write s.pty bytes)) [
      | inl n ↦ rw (e, n, write_pty) (λ q. cc)
      | inr (t, n) ↦
          rw (e, n, write_pty)
            (λ _.
              Same-Published s (record s { pty = t })
                (record { sent = refl; journal = refl; epoch = refl; seq = refl; offset = refl }) p)
    ]
  ]

  write_all-Good : (rs : List (List ℕ)) (s : Session env) → Published s → Good (write_all env rs s)
  unfolding write_all
  write_all-Good [] s p = λ _. p
  write_all-Good (r ∷ rs) s p =
      and_then-Good (write_pty env r s) (write_all env rs) (write_pty-Good r s p)
        (write_all-Good rs)

  moved_cursor :
      (s : Session env) (kind : ℕ) (payload frame : List ℕ) (moved : ℕ)
      → output_bytes (next_frame env s kind payload) ≡ moved
      → after (entry_of frame (next_frame env s kind payload))
        ≡ record { last_event_seq = s.event_seq + 1; next_pty_offset = s.next_pty_offset + moved }
  moved_cursor s kind payload frame moved out =
      λ i. record { last_event_seq = s.event_seq + 1; next_pty_offset = next i }
    where
      next :
          (if kind == pty_output then s.next_pty_offset + length payload else s.next_pty_offset)
          ≡ s.next_pty_offset + moved
      next = ground (arith, out)

  publish-Good :
      (now : ℕ) (kind : ℕ) (payload frame : List ℕ) (moved : ℕ) (s : Session env)
      (a : AppliedMutation)
      → encode_data_frame (next_frame env s kind payload) ≡ ok frame
      → apply_mutation_cursor (cursor_of env s) (next_frame env s kind payload) ≡ ok a
      → a.cursor ≡ cursor_of env (counted env s moved)
      → output_bytes (next_frame env s kind payload) ≡ moved
      → Published s
      → Good (publish env now frame (counted env s moved))
  unfolding publish apply_all
  publish-Good now kind payload frame moved s a enc app cur out p =
      elim (Result-cases (append now frame s.journal)) [
        | inr (x, e) ↦ rw (e, publish) (λ q. cc)
        | inl (j, e) ↦
            rw (e, publish)
              (λ _. record {
                later = p.later ++ (frame ∷ []);
                sent =
                    ap (λ (x : List (List ℕ)). x ++ (frame ∷ [])) p.sent
                    ∙ append_assoc base p.later (frame ∷ []);
                frames = p.frames ++ (f ∷ []);
                decoded =
                    AllDecode-append p.later (frame ∷ []) p.frames (f ∷ []) p.decoded (read, tt);
                applied = apply_all-append p.frames (f ∷ []) start ∙ rw p.applied last;
                head = append_head now frame s.journal j f e read ∙ moved_on;
                journal =
                    append-Canonical now frame s.journal j f (cursor_of env s) a e read app
                      p.journal;
              })
      ]
    where
      f : DataFrame
      f = next_frame env s kind payload

      read : decode_data_frame frame ≡ ok f
      read = decode-encode f frame enc

      last : apply_all (cursor_of env s) (f ∷ []) ≡ ok (cursor_of env (counted env s moved))
      last = rw app (ap ok cur)

      moved_on :
          after (entry_of frame f)
          ≡ record { last_event_seq = s.event_seq + 1; next_pty_offset = s.next_pty_offset + moved }
      moved_on = moved_cursor s kind payload frame moved out

  pub publish_next-Good :
      (now : ℕ) (kind : ℕ) (payload : List ℕ) (moved : ℕ) (replies : List (List ℕ))
      (s : Session env) (a : AppliedMutation)
      → apply_mutation_cursor (cursor_of env s) (next_frame env s kind payload) ≡ ok a
      → a.cursor ≡ cursor_of env (counted env s moved)
      → output_bytes (next_frame env s kind payload) ≡ moved
      → Published s
      → Good (publish_next env now kind payload moved replies s)
  unfolding publish_next
  publish_next-Good now kind payload moved replies s a app cur out p =
      elim (Result-cases (encode_data_frame (next_frame env s kind payload))) [
        | inr (x, e) ↦ rw (e, publish_next) (λ q. cc)
        | inl (frame, e) ↦
            rw (e, publish_next)
              (and_then-Good (publish env now frame (counted env s moved)) (write_all env replies)
                (publish-Good now kind payload frame moved s a e app cur out p)
                (write_all-Good replies))
      ]
