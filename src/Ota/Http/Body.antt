-- ===== src/Ota/Http/Body.antt =====
-- What one chunk of a response body does, and two in a row.
use mathlib.Core.List.{append-nil, append_assoc}
use pad_proxy.Base.{
  take-append-take, ◌+◌, ◌-◌, ◌<◌, ◌≡◌, refl, ap, sym, ◌∙◌, inl, inr, Bool, true, false, Bool-cases,
  Option, none, some, [], ◌∷◌, ◌++◌, Bytes, length, length-append, take, if◌then◌else◌, arith,
}
use pad_proxy.Ota.Flash.{FlashWriter, sector_size, flash_write_cb}
use pad_proxy.Ota.Flash.Bytewise.{
  write_bytes, flash_write_cb-write_bytes, write_bytes-open, write_bytes-append,
}
use pad_proxy.Ota.Http.{HttpCtx, stored, after_cb, to_buffer, body_chunk, body_part}

-- The sector buffer of the writer, if there is one, is not full.
abbrev pub IsOpen : Option FlashWriter → Type 0
IsOpen none = Unit
IsOpen (some fw) = length fw.sector < sector_size

cb-append :
    (a b : Bytes) (fw : FlashWriter)
    → length fw.sector < sector_size
    → flash_write_cb (a ++ b) fw ≡ (
        if (flash_write_cb a fw).0
        then flash_write_cb b (flash_write_cb a fw).1
        else (false, (flash_write_cb a fw).1))
cb-append a b fw h =
    let all = (flash_write_cb-write_bytes (a ++ b) fw h).1 in
    let first = (flash_write_cb-write_bytes a fw h).1 in
    elim (Bool-cases (write_bytes a fw).0) [
      | inl ok ↦
          let second =
            (flash_write_cb-write_bytes b (write_bytes a fw).1 (write_bytes-open a fw h ok)).1 in
          rw first (all ∙ write_bytes-append a b fw ∙ simp (ok, second))
      | inr bad ↦ rw first (all ∙ write_bytes-append a b fw ∙ simp bad)
    ]

-- Behind the first part, unless it failed.
abbrev pub unless_error : HttpCtx → (HttpCtx → HttpCtx) → HttpCtx
unless_error ctx next = if ctx.error then ctx else next ctx

pub unless_error-next :
    (ctx : HttpCtx) (next : HttpCtx → HttpCtx)
    → ctx.error ≡ false
    → unless_error ctx next ≡ next ctx
unless_error-next ctx next e = elim (Bool-cases ctx.error) [
  | inl bad ↦ absurd (cc (e, bad))
  | inr good ↦ ap (λ b. if b then ctx else next ctx) good
]

stored-append : (a b : Bytes) (ctx : HttpCtx) → stored (a ++ b) ctx ≡ stored b (stored a ctx)
stored-append [] b ctx = refl
stored-append (c ∷ a) [] ctx = ap (λ x. stored (c ∷ x) ctx) (append-nil a)
stored-append (c ∷ a) (d ∷ b) ctx =
    ap (λ x. record ctx { body = x; text = x }) (sym (append_assoc ctx.body (c ∷ a) (d ∷ b)))

length-stored :
    (a : Bytes) (ctx : HttpCtx) → length (stored a ctx).body ≡ length ctx.body + length a
length-stored [] ctx = omega arith
length-stored (c ∷ a) ctx = length-append ctx.body (c ∷ a)

stored-cap : (a : Bytes) (ctx : HttpCtx) → (stored a ctx).body_cap ≡ ctx.body_cap
stored-cap [] ctx = refl
stored-cap (c ∷ a) ctx = refl

to_buffer-append :
    (a b : Bytes) (ctx : HttpCtx) → to_buffer (a ++ b) ctx ≡ to_buffer b (to_buffer a ctx)
to_buffer-append a b ctx =
    let n = ctx.body_cap - length ctx.body - 1 in
    let x = take n a in
    let left : n - length x ≡ (stored x ctx).body_cap - length (stored x ctx).body - 1 =
      omega (arith, length-stored x ctx, stored-cap x ctx) in
    ap (λ t. stored t ctx) (sym (take-append-take n a b))
    ∙ stored-append x (take (n - length x) b) ctx
    ∙ ap (λ k. stored (take k b) (stored x ctx)) left

stored-kept :
    (a : Bytes) (ctx : HttpCtx)
    → ((stored a ctx).error ≡ ctx.error)
      × ((stored a ctx).sink ≡ ctx.sink)
      × ((stored a ctx).has_body_buf ≡ ctx.has_body_buf)
stored-kept [] ctx = (refl, refl, refl)
stored-kept (c ∷ a) ctx = (refl, refl, refl)

after_cb-again :
    (ctx : HttpCtx) (w : FlashWriter) (r : Bool × FlashWriter)
    → after_cb ctx r ≡ after_cb (record ctx { sink = some w }) r
after_cb-again ctx w (true, v) = refl
after_cb-again ctx w (false, v) = refl

after_cb-append :
    (b : Bytes) (ctx : HttpCtx) (r : Bool × FlashWriter)
    → ctx.error ≡ false
    → after_cb ctx (if r.0 then flash_write_cb b r.1 else (false, r.1))
      ≡ unless_error (after_cb ctx r) (λ c. body_chunk b c c.sink)
after_cb-append b ctx (true, w) e =
    after_cb-again ctx w (flash_write_cb b w)
    ∙ sym (unless_error-next (record ctx { sink = some w }) (λ c. body_chunk b c c.sink) e)
after_cb-append b ctx (false, w) e = refl

body_chunk-append :
    (a b : Bytes) (ctx : HttpCtx) (sink : Option FlashWriter)
    → ctx.sink ≡ sink
    → IsOpen sink
    → ctx.error ≡ false
    → body_chunk (a ++ b) ctx sink
      ≡ unless_error (body_chunk a ctx sink) (λ c. body_chunk b c c.sink)
body_chunk-append a b ctx none s o e = elim (Bool-cases ctx.has_body_buf) [
  | inl has ↦
      let (e1, s1, h1) = stored-kept (take (ctx.body_cap - length ctx.body - 1) a) ctx in
      simp (has, e1 ∙ e, s1 ∙ s, h1 ∙ has) (to_buffer-append a b ctx)
  | inr nowhere ↦ simp (nowhere, e, s)
]
body_chunk-append a b ctx (some fw) s o e =
    ap (after_cb ctx) (cb-append a b fw o) ∙ after_cb-append b ctx (flash_write_cb a fw) e

if_same : (b : Bool) (ctx : HttpCtx) → (if b then ctx else ctx) ≡ ctx
if_same true ctx = refl
if_same false ctx = refl

pub body_part-append :
    (a b : Bytes) (ctx : HttpCtx)
    → IsOpen ctx.sink
    → ctx.error ≡ false
    → body_part (a ++ b) ctx ≡ unless_error (body_part a ctx) (body_part b)
unfolding body_part
body_part-append [] b ctx o e = sym (unless_error-next ctx (body_part b) e)
body_part-append (c ∷ a) [] ctx o e =
    ap (λ x. body_chunk (c ∷ x) ctx ctx.sink) (append-nil a)
    ∙ sym (if_same (body_chunk (c ∷ a) ctx ctx.sink).error (body_chunk (c ∷ a) ctx ctx.sink))
body_part-append (c ∷ a) (d ∷ b) ctx o e = body_chunk-append (c ∷ a) (d ∷ b) ctx ctx.sink refl o e

after_cb-kept :
    (ctx : HttpCtx) (bs : Bytes) (fw : FlashWriter) (r : Bool × FlashWriter)
    → (r.0 ≡ true → length r.1.sector < sector_size)
    → ((after_cb ctx r).complete ≡ ctx.complete)
      × ((after_cb ctx r).headers_done ≡ ctx.headers_done)
      × ((after_cb ctx r).error ≡ false → IsOpen (after_cb ctx r).sink)
after_cb-kept ctx bs fw (true, w) h = (refl, refl, λ e. h refl)
after_cb-kept ctx bs fw (false, w) h = (refl, refl, λ e. absurd (cc e))

stored-kept2 :
    (a : Bytes) (ctx : HttpCtx)
    → ((stored a ctx).complete ≡ ctx.complete) × ((stored a ctx).headers_done ≡ ctx.headers_done)
stored-kept2 [] ctx = (refl, refl)
stored-kept2 (c ∷ a) ctx = (refl, refl)

body_chunk-kept :
    (bs : Bytes) (ctx : HttpCtx) (sink : Option FlashWriter)
    → ctx.sink ≡ sink
    → IsOpen sink
    → ((body_chunk bs ctx sink).complete ≡ ctx.complete)
      × ((body_chunk bs ctx sink).headers_done ≡ ctx.headers_done)
      × ((body_chunk bs ctx sink).error ≡ false → IsOpen (body_chunk bs ctx sink).sink)
body_chunk-kept bs ctx none s o = elim (Bool-cases ctx.has_body_buf) [
  | inl has ↦
      let chunk = take (ctx.body_cap - length ctx.body - 1) bs in
      let (e1, s1, h1) = stored-kept chunk ctx in
      let (c2, d2) = stored-kept2 chunk ctx in simp has (c2, d2, λ e. rw (s1 ∙ s) tt)
  | inr nowhere ↦ simp nowhere (refl, refl, λ e. rw s tt)
]
body_chunk-kept bs ctx (some fw) s o = after_cb-kept ctx bs fw (flash_write_cb bs fw) (λ ok.
    let same = (flash_write_cb-write_bytes bs fw o).1 in
    rw same (write_bytes-open bs fw o (sym (ap (λ r. r.0) same) ∙ ok)))

pub body_part-kept :
    (bs : Bytes) (ctx : HttpCtx)
    → IsOpen ctx.sink
    → ((body_part bs ctx).complete ≡ ctx.complete)
      × ((body_part bs ctx).headers_done ≡ ctx.headers_done)
      × ((body_part bs ctx).error ≡ false → IsOpen (body_part bs ctx).sink)
unfolding body_part
body_part-kept [] ctx o = (refl, refl, λ e. o)
body_part-kept (b ∷ bs) ctx o = body_chunk-kept (b ∷ bs) ctx ctx.sink refl o
