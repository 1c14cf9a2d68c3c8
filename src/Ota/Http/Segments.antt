-- ===== src/Ota/Http/Segments.antt =====
-- The way in which TCP cuts a response into segments does not matter.
use pad_proxy.Base.{
  ℕ, ◌≡◌, refl, ap, sym, ◌∙◌, inl, inr, true, false, ◌||◌, Bool-cases, List, [], ◌∷◌, ◌++◌, Bytes,
  if◌then◌else◌, arith,
}
use pad_proxy.Ota.Flash.Install.{concat}
use pad_proxy.Ota.Http.{
  HttpCtx, push_header, at_end, finish_headers, header_loop, body_part, process_data,
}
use pad_proxy.Ota.Http.Body.{IsOpen, unless_error-next, body_part-append, body_part-kept}
use pad_proxy.Ota.Http.{deliver}

-- The payloads of successive buffers.
unfoldable pub receive : List Bytes → HttpCtx → HttpCtx
receive [] ctx = ctx
receive (bs ∷ segments) ctx = receive segments (process_data bs ctx)

push_header-done :
    (c : ℕ) (ctx : HttpCtx) → ctx.headers_done ≡ false → (push_header c ctx).headers_done ≡ false
push_header-done c ctx e = ground (arith, e)

header_loop-append :
    (a b : Bytes) (ctx : HttpCtx)
    → ctx.headers_done ≡ false
    → header_loop (a ++ b) ctx ≡ (
        if (header_loop a ctx).0.headers_done
        then ((header_loop a ctx).0, (header_loop a ctx).1 ++ b)
        else header_loop b (header_loop a ctx).0)
unfolding header_loop finish_headers
header_loop-append [] b ctx e = simp e
header_loop-append (c ∷ a) b ctx e = elim (Bool-cases (at_end (push_header c ctx).hdr_buf)) [
  | inl end ↦ simp end
  | inr more ↦ simp more (header_loop-append a b (push_header c ctx) (push_header-done c ctx e))
]

-- What the header loop leaves alone.
pub header_loop-kept :
    (bs : Bytes) (ctx : HttpCtx)
    → ((header_loop bs ctx).0.error ≡ ctx.error)
      × ((header_loop bs ctx).0.complete ≡ ctx.complete)
      × ((header_loop bs ctx).0.sink ≡ ctx.sink)
unfolding header_loop finish_headers
header_loop-kept [] ctx = (refl, refl, refl)
header_loop-kept (b ∷ bs) ctx = ground (arith, header_loop-kept bs (push_header b ctx))

-- Bytes are left over only behind the end of the headers.
header_loop-rest :
    (bs : Bytes) (ctx : HttpCtx)
    → (header_loop bs ctx).0.headers_done ≡ false
    → (header_loop bs ctx).1 ≡ []
unfolding header_loop finish_headers
header_loop-rest [] ctx h = refl
header_loop-rest (b ∷ bs) ctx h = ground (arith, h, header_loop-rest bs (push_header b ctx))

pub process_data-stopped :
    (bs : Bytes) (ctx : HttpCtx) → (ctx.error || ctx.complete) ≡ true → process_data bs ctx ≡ ctx
unfolding process_data
process_data-stopped bs ctx h = simp h

pub process_data-body :
    (bs : Bytes) (ctx : HttpCtx)
    → (ctx.error || ctx.complete) ≡ false
    → ctx.headers_done ≡ true
    → process_data bs ctx ≡ body_part bs ctx
unfolding process_data
process_data-body bs ctx h d = simp (h, d)

pub process_data-headers :
    (bs : Bytes) (ctx : HttpCtx)
    → (ctx.error || ctx.complete) ≡ false
    → ctx.headers_done ≡ false
    → process_data bs ctx ≡ body_part (header_loop bs ctx).1 (header_loop bs ctx).0
unfolding process_data
process_data-headers bs ctx h d = simp (h, d)

-- Behind the headers.
body_then_data :
    (a b : Bytes) (ctx : HttpCtx)
    → (ctx.error || ctx.complete) ≡ false
    → ctx.headers_done ≡ true
    → IsOpen ctx.sink
    → body_part (a ++ b) ctx ≡ process_data b (body_part a ctx)
body_then_data a b ctx h d o =
    let c1 = body_part a ctx in
    let (cm, hd, op) = body_part-kept a ctx o in
    body_part-append a b ctx o (ground (arith, h)) ∙ elim (Bool-cases c1.error) [
      | inl bad ↦ simp bad (sym (process_data-stopped b c1 (ground (arith, bad))))
      | inr fine ↦
          unless_error-next c1 (body_part b) fine
          ∙ sym (process_data-body b c1 (ground (arith, fine, h, cm)) (hd ∙ d))
    ]

-- Behind the header loop, whichever way it ended.
process_data-fresh :
    (a b : Bytes) (ctx : HttpCtx)
    → (ctx.error || ctx.complete) ≡ false
    → ctx.headers_done ≡ false
    → IsOpen ctx.sink
    → process_data (a ++ b) ctx ≡ process_data b (process_data a ctx)
unfolding body_part
process_data-fresh a b ctx runs fresh o =
    let (c1, r1) = header_loop a ctx in
    let (e1, f1, s1) = header_loop-kept a ctx in
    let runs1 : (c1.error || c1.complete) ≡ false = ground (arith, runs, e1, f1) in
    let whole = header_loop-append a b ctx fresh in
    let now = process_data-headers (a ++ b) ctx runs fresh in
    let then_ = ap (process_data b) (sym (process_data-headers a ctx runs fresh)) in
    elim (Bool-cases c1.headers_done) [
      | inl done ↦
          let split : header_loop (a ++ b) ctx ≡ (c1, r1 ++ b) = whole ∙ simp done in
          now ∙ ap deliver split ∙ body_then_data r1 b c1 runs1 done (rw s1 o) ∙ then_
      | inr more ↦
          let split : header_loop (a ++ b) ctx ≡ header_loop b c1 = whole ∙ simp more in
          now
          ∙ ap deliver split
          ∙ sym (process_data-headers b c1 runs1 more)
          ∙ ap (process_data b) (ap (λ r. body_part r c1) (sym (header_loop-rest a ctx more)))
          ∙ then_
    ]

-- A writer in use has room in its sector buffer.
abbrev pub IsReady : HttpCtx → Type 0
IsReady ctx = ctx.error ≡ false → IsOpen ctx.sink

process_data-append :
    (a b : Bytes) (ctx : HttpCtx)
    → IsReady ctx
    → process_data (a ++ b) ctx ≡ process_data b (process_data a ctx)
process_data-append a b ctx o = elim (Bool-cases (ctx.error || ctx.complete)) [
  | inl stopped ↦
      process_data-stopped (a ++ b) ctx stopped
      ∙ sym (process_data-stopped b ctx stopped)
      ∙ ap (process_data b) (sym (process_data-stopped a ctx stopped))
  | inr runs ↦
      let o1 = o (ground (arith, runs)) in
      elim (Bool-cases ctx.headers_done) [
        | inl done ↦
            process_data-body (a ++ b) ctx runs done
            ∙ body_then_data a b ctx runs done o1
            ∙ ap (process_data b) (sym (process_data-body a ctx runs done))
        | inr fresh ↦ process_data-fresh a b ctx runs fresh o1
      ]
]

pub process_data-IsReady :
    (bs : Bytes) (ctx : HttpCtx) → IsReady ctx → IsReady (process_data bs ctx)
process_data-IsReady bs ctx o = elim (Bool-cases (ctx.error || ctx.complete)) [
  | inl stopped ↦ rw (process_data-stopped bs ctx stopped) o
  | inr runs ↦
      let o1 = o (ground (arith, runs)) in
      elim (Bool-cases ctx.headers_done) [
        | inl done ↦ rw (process_data-body bs ctx runs done) (body_part-kept bs ctx o1).2
        | inr fresh ↦
            let (c1, r1) = header_loop bs ctx in
            rw (process_data-headers bs ctx runs fresh)
              (body_part-kept r1 c1 (rw (header_loop-kept bs ctx).2 o1)).2
      ]
]

process_data-nil : (ctx : HttpCtx) → process_data [] ctx ≡ ctx
unfolding process_data header_loop body_part
process_data-nil ctx = ground arith

-- However TCP and lwIP cut a response into buffers, the client ends in the state in which it would be
-- had all bytes come in one: the status, the headers, the collected body, and every write to the
-- flash. This holds for a flash writer with room in its sector buffer, and for a body that is
-- collected.
pub receive-concat :
    (segments : List Bytes) (ctx : HttpCtx)
    → IsReady ctx
    → receive segments ctx ≡ process_data (concat segments) ctx
unfolding receive
receive-concat [] ctx o = sym (process_data-nil ctx)
receive-concat (bs ∷ segments) ctx o =
    receive-concat segments (process_data bs ctx) (process_data-IsReady bs ctx o)
    ∙ sym (process_data-append bs (concat segments) ctx o)
