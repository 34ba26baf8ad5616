-- ===== src/Host/Session/Keeps.antt =====
-- session.ts: what each step does to the record of inputs (fence, writer, results).
use zhongduan.Base.{
  ℕ, ◌≡◌, refl, ◌∙◌, inl, inr, true, false, List, [], ◌∷◌, arith, Option-cases, length,
  Result-cases, take, drop, zero, suc,
}
use zhongduan.Protocol.Frame.{encode_data_frame, encode_resize_payload, ResizePayload}
use zhongduan.Host.Session.{
  counted, next_frame, max_pty_frame_bytes, Environment, Session, Submission, fail, commit_of,
  Outcome, and_then, write_pty, write_all, publish, publish_next, commit_chunk, commit_chunks,
  commit_resize, write_input, caught, submit_encoded, submit_text, submit_resize,
}

module _ (env : Environment) where
  -- A step that leaves the record of inputs alone.
  pub record Keeps (s t : Session env) : Type 0 where
    pub fence : t.input_fence ≡ s.input_fence
    pub writer : t.input_writer ≡ s.input_writer
    pub results : t.input_results ≡ s.input_results
    pub disposal : t.disposed ≡ s.disposed

  pub Keeps-refl : (s : Session env) → Keeps s s
  Keeps-refl s = record { fence = refl; writer = refl; results = refl; disposal = refl }

  pub Keeps-trans : (s t u : Session env) → Keeps s t → Keeps t u → Keeps s u
  Keeps-trans s t u p q = record {
    fence = q.fence ∙ p.fence;
    writer = q.writer ∙ p.writer;
    results = q.results ∙ p.results;
    disposal = q.disposal ∙ p.disposal;
  }

  pub and_then-Keeps :
      (s : Session env) (o : Outcome env) (k : Session env → Outcome env)
      → Keeps s o.0
      → ((t : Session env) → Keeps t (k t).0)
      → Keeps s (and_then env o k).0
  and_then-Keeps s (t, true) k p q = Keeps-trans s t (k t).0 p (q t)
  and_then-Keeps s (t, false) k p q = p

  pub write_pty-Keeps : (bytes : List ℕ) (s : Session env) → Keeps s (write_pty env bytes s).0
  unfolding write_pty
  write_pty-Keeps bytes s = ground arith

  pub write_all-Keeps : (rs : List (List ℕ)) (s : Session env) → Keeps s (write_all env rs s).0
  unfolding write_all
  write_all-Keeps [] s = Keeps-refl s
  write_all-Keeps (r ∷ rs) s =
      and_then-Keeps s (write_pty env r s) (write_all env rs) (write_pty-Keeps r s)
        (write_all-Keeps rs)

  pub publish-Keeps :
      (now : ℕ) (frame : List ℕ) (s : Session env) → Keeps s (publish env now frame s).0
  unfolding publish
  publish-Keeps now frame s = ground arith

  pub publish_next-Keeps :
      (now kind : ℕ) (payload : List ℕ) (moved : ℕ) (replies : List (List ℕ)) (s : Session env)
      → Keeps s (publish_next env now kind payload moved replies s).0
  unfolding publish_next
  publish_next-Keeps now kind payload moved replies s =
      elim (Result-cases (encode_data_frame (next_frame env s kind payload))) [
        | inr (x, e) ↦
            rw (e, publish_next)
              (record { fence = refl; writer = refl; results = refl; disposal = refl })
        | inl (frame, e) ↦
            rw (e, publish_next)
              (and_then-Keeps s (publish env now frame (counted env s moved))
                (write_all env replies)
                (Keeps-trans s (counted env s moved) _
                  (record { fence = refl; writer = refl; results = refl; disposal = refl })
                  (publish-Keeps now frame (counted env s moved)))
                (write_all-Keeps replies))
      ]

  pub commit_chunk-Keeps :
      (now : ℕ) (chunk : List ℕ) (s : Session env) → Keeps s (commit_chunk env now chunk s).0
  unfolding commit_chunk
  commit_chunk-Keeps now chunk s = elim (Option-cases (env.apply_output s.authority chunk)) [
    | inl e ↦ rw (e, commit_chunk) (Keeps-refl s)
    | inr ((a, replies), e) ↦
        rw (e, commit_chunk)
          (Keeps-trans s (record s { authority = a }) _
            (record { fence = refl; writer = refl; results = refl; disposal = refl })
            (publish_next-Keeps now 1 chunk (length chunk) replies (record s { authority = a })))
  ]

  pub commit_chunks-Keeps :
      (fuel now : ℕ) (bytes : List ℕ) (s : Session env)
      → Keeps s (commit_chunks env fuel now bytes s).0
  unfolding commit_chunks
  commit_chunks-Keeps fuel now [] s = Keeps-refl s
  commit_chunks-Keeps zero now (b ∷ bs) s = Keeps-refl s
  commit_chunks-Keeps (suc fuel) now (b ∷ bs) s =
      and_then-Keeps s (commit_chunk env now (take max_pty_frame_bytes (b ∷ bs)) s)
        (commit_chunks env fuel now (drop max_pty_frame_bytes (b ∷ bs)))
        (commit_chunk-Keeps now (take max_pty_frame_bytes (b ∷ bs)) s)
        (commit_chunks-Keeps fuel now (drop max_pty_frame_bytes (b ∷ bs)))

  pub commit_resize-Keeps :
      (now : ℕ) (d : ResizePayload) (s : Session env) → Keeps s (commit_resize env now d s).0
  unfolding commit_resize
  commit_resize-Keeps now d s = elim (Result-cases (encode_resize_payload d)) [
    | inr (x, e) ↦ rw (e, commit_resize) (Keeps-refl s)
    | inl (payload, e) ↦ elim (Option-cases (env.resize_authority s.authority d)) [
      | inl n ↦ rw (e, n, commit_resize) (Keeps-refl s)
      | inr ((a, replies), m) ↦ elim (Option-cases (env.resize_pty s.pty d)) [
        | inl n ↦
            rw (e, m, n, commit_resize)
              (record { fence = refl; writer = refl; results = refl; disposal = refl })
        | inr (p, n) ↦
            rw (e, m, n, commit_resize)
              (Keeps-trans s (record s { authority = a; pty = p }) _
                (record { fence = refl; writer = refl; results = refl; disposal = refl })
                (publish_next-Keeps now 2 payload 0 replies (record s { authority = a; pty = p })))
      ]
    ]
  ]

  pub write_input-Keeps : (i : env.Input) (s : Session env) → Keeps s (write_input env i s).0
  unfolding write_input
  write_input-Keeps i s = elim (Option-cases (env.encode_input s.authority i)) [
    | inl e ↦ rw (e, write_input) (Keeps-refl s)
    | inr (bytes, e) ↦ rw (e, write_input) (write_pty-Keeps bytes s)
  ]

  pub commit_of-Keeps :
      (now : ℕ) (a : Submission env) (s : Session env) → Keeps s (commit_of env now a s).0
  unfolding commit_of
  commit_of-Keeps now (submit_encoded i) s = write_input-Keeps i s
  commit_of-Keeps now (submit_text bytes) s = write_pty-Keeps bytes s
  commit_of-Keeps now (submit_resize d) s = commit_resize-Keeps now d s

  pub fail-Keeps : (s : Session env) → Keeps s (fail env s)
  unfolding fail
  fail-Keeps s = ground arith

  pub caught-Keeps : (s : Session env) (o : Outcome env) → Keeps s o.0 → Keeps s (caught env o)
  caught-Keeps s (t, true) k = k
  caught-Keeps s (t, false) k = Keeps-trans s t (fail env t) k (fail-Keeps t)
