-- ===== src/Ota/Http/Headers.antt =====
-- Response headers that do not fit the buffer.
use pad_proxy.Base.{
  ℕ, ◌≤◌, ◌≡◌, refl, ap, ◌∙◌, inl, inr, false, ◌||◌, Bool-cases, List, [], ◌∷◌, Bytes, length, ltb,
  arith,
}
use pad_proxy.Ota.Http.{HttpCtx, hdr_max, push_header, at_end, header_loop, body_part, process_data}
use pad_proxy.Ota.Http.Segments.{receive, process_data-stopped, process_data-headers}

-- The buffer is full, and does not end with the empty line.
pub record Stuck (ctx : HttpCtx) : Type 0 where
  pub full : hdr_max ≤ length ctx.hdr_buf
  pub no_end : at_end ctx.hdr_buf ≡ false
  pub in_headers : ctx.headers_done ≡ false

push_header-full : (b : ℕ) (ctx : HttpCtx) → Stuck ctx → push_header b ctx ≡ ctx
push_header-full b ctx s =
    let none_left : ltb (length ctx.hdr_buf) hdr_max ≡ false = ground (arith, s.full) in
    simp none_left

header_loop-Stuck : (bs : Bytes) (ctx : HttpCtx) → Stuck ctx → header_loop bs ctx ≡ (ctx, [])
unfolding header_loop
header_loop-Stuck [] ctx s = refl
header_loop-Stuck (b ∷ bs) ctx s =
    simp (push_header-full b ctx s, s.no_end) (header_loop-Stuck bs ctx s)

process_data-Stuck : (bs : Bytes) (ctx : HttpCtx) → Stuck ctx → process_data bs ctx ≡ ctx
unfolding body_part
process_data-Stuck bs ctx s = elim (Bool-cases (ctx.error || ctx.complete)) [
  | inl stopped ↦ process_data-stopped bs ctx stopped
  | inr going ↦
      process_data-headers bs ctx going s.in_headers
      ∙ ap (λ r. body_part r.1 r.0) (header_loop-Stuck bs ctx s)
]

-- Once the 2047 bytes of the header buffer are full without the empty line at their end, whatever else
-- arrives is dropped: the headers are never complete, and there is no body.
pub receive-Stuck : (chain : List Bytes) (ctx : HttpCtx) → Stuck ctx → receive chain ctx ≡ ctx
unfolding receive
receive-Stuck [] ctx s = refl
receive-Stuck (bs ∷ chain) ctx s =
    ap (receive chain) (process_data-Stuck bs ctx s) ∙ receive-Stuck chain ctx s
