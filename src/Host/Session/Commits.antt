-- ===== src/Host/Session/Commits.antt =====
-- session.ts: the published stream over `#commitPtyOutput` and `#commitResize`.
use zhongduan.Base.{
  ℕ, zero, suc, ◌+◌, ◌≡◌, refl, inl, inr, none, some, List, [], ◌∷◌, arith, Option-cases,
  Result-cases, length, take, drop, ok, ==_refl,
}
use zhongduan.Protocol.Frame.{ResizePayload, encode_resize_payload, pty_output, resize_applied}
use zhongduan.Protocol.Frame.RoundTrip.{decode-encode_resize}
use zhongduan.Protocol.Cursor.{ReplicaCursor, AppliedMutation, apply_mutation_cursor, advance}
use zhongduan.Host.Session.{
  Environment, Session, counted, next_frame, commit_chunk, commit_chunks, commit_resize,
  write_input, commit_of, Submission, submit_encoded, submit_text, submit_resize,
  max_pty_frame_bytes,
}
use zhongduan.Host.Session.Stream.{
  cursor_of, Published, Same-Published, Good, and_then-Good, write_pty-Good, publish_next-Good,
}

module _ (env : Environment) (base : List (List ℕ)) (start : ReplicaCursor) where
  output_applies :
      (s : Session env) (chunk : List ℕ)
      → (a : AppliedMutation) × (apply_mutation_cursor
            (cursor_of env s)
            (next_frame env s pty_output chunk)
          ≡ ok a)
        × (a.cursor ≡ cursor_of env (counted env s (length chunk)))
  unfolding apply_mutation_cursor advance
  output_applies s chunk = (
    record { cursor = cursor_of env (counted env s (length chunk)); resize = none },
    rw (==_refl s.session_epoch, ==_refl (s.event_seq + 1), ==_refl s.next_pty_offset) refl,
    refl,
  )

  resize_applies :
      (s : Session env) (d : ResizePayload) (payload : List ℕ)
      → encode_resize_payload d ≡ ok payload
      → (a : AppliedMutation) × (apply_mutation_cursor
            (cursor_of env s)
            (next_frame env s resize_applied payload)
          ≡ ok a)
        × (a.cursor ≡ cursor_of env (counted env s 0))
  unfolding apply_mutation_cursor advance
  resize_applies s d payload e = (
    record {
      cursor = record (cursor_of env s) { last_event_seq = s.event_seq + 1 };
      resize = some d;
    },
    rw
        (
          ==_refl s.session_epoch,
          ==_refl (s.event_seq + 1),
          ==_refl s.next_pty_offset,
          decode-encode_resize d payload e,
        )
        refl,
    λ i. record {
      session_epoch = s.session_epoch;
      delivery_generation = 0;
      last_event_seq = s.event_seq + 1;
      next_pty_offset = next i;
    },
  )
    where
      next : s.next_pty_offset ≡ s.next_pty_offset + 0
      next = omega arith

  commit_chunk-Good :
      (now : ℕ) (chunk : List ℕ) (s : Session env)
      → Published env base start s
      → Good env base start (commit_chunk env now chunk s)
  unfolding commit_chunk
  commit_chunk-Good now chunk s p = elim (Option-cases (env.apply_output s.authority chunk)) [
    | inl e ↦ rw (e, commit_chunk) (λ q. cc)
    | inr ((a, replies), e) ↦
        let t : Session env = record s { authority = a } in
        let (m, app, cur) = output_applies t chunk in
        rw (e, commit_chunk)
          (publish_next-Good env base start now pty_output chunk (length chunk) replies t m app cur
            refl
            (Same-Published env base start s t
              (record { sent = refl; journal = refl; epoch = refl; seq = refl; offset = refl }) p))
  ]

  pub commit_chunks-Good :
      (fuel now : ℕ) (bytes : List ℕ) (s : Session env)
      → Published env base start s
      → Good env base start (commit_chunks env fuel now bytes s)
  unfolding commit_chunks
  commit_chunks-Good fuel now [] s p = λ _. p
  commit_chunks-Good zero now (b ∷ bs) s p = λ q. cc
  commit_chunks-Good (suc fuel) now (b ∷ bs) s p =
      and_then-Good env base start (commit_chunk env now (take max_pty_frame_bytes (b ∷ bs)) s)
        (commit_chunks env fuel now (drop max_pty_frame_bytes (b ∷ bs)))
        (commit_chunk-Good now (take max_pty_frame_bytes (b ∷ bs)) s p)
        (commit_chunks-Good fuel now (drop max_pty_frame_bytes (b ∷ bs)))

  pub commit_resize-Good :
      (now : ℕ) (d : ResizePayload) (s : Session env)
      → Published env base start s
      → Good env base start (commit_resize env now d s)
  unfolding commit_resize
  commit_resize-Good now d s p = elim (Result-cases (encode_resize_payload d)) [
    | inr (x, e) ↦ rw (e, commit_resize) (λ q. cc)
    | inl (payload, e) ↦ elim (Option-cases (env.resize_authority s.authority d)) [
      | inl n ↦ rw (e, n, commit_resize) (λ q. cc)
      | inr ((a, replies), m) ↦ elim (Option-cases (env.resize_pty s.pty d)) [
        | inl n ↦ rw (e, m, n, commit_resize) (λ q. cc)
        | inr (t, n) ↦
            let u : Session env = record s { authority = a; pty = t } in
            let (v, app, cur) = resize_applies u d payload e in
            rw (e, m, n, commit_resize)
              (publish_next-Good env base start now resize_applied payload 0 replies u v app cur
                refl
                (Same-Published env base start s u
                  (record { sent = refl; journal = refl; epoch = refl; seq = refl; offset = refl })
                  p))
      ]
    ]
  ]

  pub write_input-Good :
      (i : env.Input) (s : Session env)
      → Published env base start s
      → Good env base start (write_input env i s)
  unfolding write_input
  write_input-Good i s p = elim (Option-cases (env.encode_input s.authority i)) [
    | inl e ↦ rw (e, write_input) (λ q. cc)
    | inr (bytes, e) ↦ rw (e, write_input) (write_pty-Good env base start bytes s p)
  ]

  pub commit_of-Good :
      (now : ℕ) (a : Submission env) (s : Session env)
      → Published env base start s
      → Good env base start (commit_of env now a s)
  unfolding commit_of
  commit_of-Good now (submit_encoded i) s p = write_input-Good i s p
  commit_of-Good now (submit_text bytes) s p = write_pty-Good env base start bytes s p
  commit_of-Good now (submit_resize d) s p = commit_resize-Good now d s p
