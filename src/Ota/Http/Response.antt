-- ===== src/Ota/Http/Response.antt =====
-- A response whose headers fit the buffer.
use mathlib.Core.List.{append_assoc}
use pad_proxy.Base.{
  ℕ, ◌+◌, ◌≤◌, ◌<◌, ◌≡◌, refl, ap, ◌∙◌, inl, inr, true, false, ◌||◌, Bool-cases, List, [], ◌∷◌,
  ◌++◌, Bytes, length, length-append, ltb, arith,
}
use pad_proxy.Ota.Http.{
  HttpCtx, hdr_max, push_header, at_end, finish_headers, header_loop, body_part, process_data,
}
use pad_proxy.Ota.Http.Segments.{
  receive, process_data-stopped, process_data-headers, process_data-body, IsReady,
  process_data-IsReady, header_loop-kept,
}
use pad_proxy.Ota.Http.Body.{body_part-kept}

-- Bytes that complete the headers behind `buf` with their last one, and not before.
abbrev pub EndsOnce : Bytes → Bytes → Type 0
EndsOnce buf [] = ⊥
EndsOnce buf (b ∷ []) = at_end (buf ++ b ∷ []) ≡ true
EndsOnce buf (b ∷ c ∷ bs) = (at_end (buf ++ b ∷ []) ≡ false) × EndsOnce (buf ++ b ∷ []) (c ∷ bs)

push_header-room :
    (b : ℕ) (ctx : HttpCtx)
    → length ctx.hdr_buf < hdr_max
    → push_header b ctx ≡ record ctx { hdr_buf = ctx.hdr_buf ++ b ∷ [] }
push_header-room b ctx h =
    let room : ltb (length ctx.hdr_buf) hdr_max ≡ true = ground (arith, h) in simp room

header_loop-end :
    (b : ℕ) (bs : Bytes) (ctx : HttpCtx)
    → length ctx.hdr_buf < hdr_max
    → at_end (ctx.hdr_buf ++ b ∷ []) ≡ true
    → header_loop (b ∷ bs) ctx
      ≡ (finish_headers (record ctx { hdr_buf = ctx.hdr_buf ++ b ∷ [] }), bs)
unfolding header_loop
header_loop-end b bs ctx room end = simp (push_header-room b ctx room, end)

header_loop-more :
    (b : ℕ) (bs : Bytes) (ctx : HttpCtx)
    → length ctx.hdr_buf < hdr_max
    → at_end (ctx.hdr_buf ++ b ∷ []) ≡ false
    → header_loop (b ∷ bs) ctx ≡ header_loop bs (record ctx { hdr_buf = ctx.hdr_buf ++ b ∷ [] })
unfolding header_loop
header_loop-more b bs ctx room end = simp (push_header-room b ctx room, end)

header_loop-EndsOnce :
    (hdr body : Bytes) (ctx : HttpCtx)
    → EndsOnce ctx.hdr_buf hdr
    → length ctx.hdr_buf + length hdr ≤ hdr_max
    → header_loop (hdr ++ body) ctx
      ≡ (finish_headers (record ctx { hdr_buf = ctx.hdr_buf ++ hdr }), body)
header_loop-EndsOnce [] body ctx e fits = absurd e
header_loop-EndsOnce (b ∷ []) body ctx e fits = header_loop-end b body ctx (omega (arith, fits)) e
header_loop-EndsOnce (b ∷ c ∷ hdr) body ctx (more, e) fits =
    header_loop-more b (c ∷ hdr ++ body) ctx (omega (arith, fits)) more
    ∙ header_loop-EndsOnce (c ∷ hdr) body (record ctx { hdr_buf = ctx.hdr_buf ++ b ∷ [] }) e
        (omega (arith, fits, length-append ctx.hdr_buf (b ∷ [])))
    ∙ ap (λ buf. (finish_headers (record ctx { hdr_buf = buf }), body))
        (append_assoc ctx.hdr_buf (b ∷ []) (c ∷ hdr))

-- A whole response to a request that has not received anything.
pub process_data-response :
    (hdr body : Bytes) (ctx : HttpCtx)
    → ctx.error ≡ false
    → ctx.complete ≡ false
    → ctx.headers_done ≡ false
    → ctx.hdr_buf ≡ []
    → EndsOnce [] hdr
    → length hdr ≤ hdr_max
    → process_data (hdr ++ body) ctx
      ≡ body_part body (finish_headers (record ctx { hdr_buf = hdr }))
process_data-response hdr body ctx e c d empty once fits =
    process_data-headers (hdr ++ body) ctx (ground (arith, e, c)) d
    ∙ ap (λ r. body_part r.1 r.0)
        (header_loop-EndsOnce hdr body ctx (rw empty once) (rw empty (omega (arith, fits))))
    ∙ ap (λ buf. body_part body (finish_headers (record ctx { hdr_buf = buf ++ hdr }))) empty

-- An error is final, and a request that goes on is not complete.
pub receive-error :
    (chain : List Bytes) (ctx : HttpCtx) → ctx.error ≡ true → receive chain ctx ≡ ctx
unfolding receive
receive-error [] ctx e = refl
receive-error (bs ∷ chain) ctx e =
    ap (receive chain) (process_data-stopped bs ctx (ground (arith, e))) ∙ receive-error chain ctx e

pub receive-nil : (ctx : HttpCtx) → receive [] ctx ≡ ctx
unfolding receive
receive-nil ctx = refl

pub receive-append :
    (a b : List Bytes) (ctx : HttpCtx) → receive (a ++ b) ctx ≡ receive b (receive a ctx)
unfolding receive
receive-append [] b ctx = refl
receive-append (bs ∷ a) b ctx = receive-append a b (process_data bs ctx)

process_data-complete :
    (bs : Bytes) (ctx : HttpCtx) → IsReady ctx → (process_data bs ctx).complete ≡ ctx.complete
process_data-complete bs ctx o = elim (Bool-cases (ctx.error || ctx.complete)) [
  | inl stopped ↦ rw (process_data-stopped bs ctx stopped)
  | inr runs ↦
      let o1 = o (ground (arith, runs)) in
      elim (Bool-cases ctx.headers_done) [
        | inl done ↦ rw (process_data-body bs ctx runs done) (body_part-kept bs ctx o1).0
        | inr fresh ↦
            let (c1, r1) = header_loop bs ctx in
            let kept = header_loop-kept bs ctx in
            rw (process_data-headers bs ctx runs fresh)
              ((body_part-kept r1 c1 (rw kept.2 o1)).0 ∙ kept.1)
      ]
]

pub receive-going :
    (chain : List Bytes) (ctx : HttpCtx)
    → IsReady ctx
    → IsReady (receive chain ctx) × ((receive chain ctx).complete ≡ ctx.complete)
unfolding receive
receive-going [] ctx o = (o, refl)
receive-going (bs ∷ chain) ctx o =
    let (o1, c1) = receive-going chain (process_data bs ctx) (process_data-IsReady bs ctx o) in
    (o1, c1 ∙ process_data-complete bs ctx o)

-- What went well to the end went well so far.
pub receive-no_error :
    (a b : List Bytes) (ctx : HttpCtx)
    → (receive (a ++ b) ctx).error ≡ false
    → (receive a ctx).error ≡ false
receive-no_error a b ctx e = elim (Bool-cases (receive a ctx).error) [
  | inl bad ↦ absurd (
      cc (e, ap (λ c. c.error) (receive-append a b ctx ∙ receive-error b (receive a ctx) bad), bad))
  | inr good ↦ good
]
