-- ===== src/Dom/Events/Exact.antt =====
-- Which modifier keys let an event through, crates/vue-rs-dom/src/backend.rs.
use vue_rs.Base.{◌≡◌, ◌↔◌, refl, Bool, true, false, not, ◌&&◌, arith}
use vue_rs.Dom.Events.{EventOptions, Held, system_modifiers_pass}

-- With `.exact` the guards pass just when the keys that are held are the requested ones.
pub system_modifiers_pass-exact :
    (opts : EventOptions) (held : Held)
    → opts.exact ≡ true
    → (system_modifiers_pass opts held ≡ true) ↔ (
        (held.ctrl ≡ opts.ctrl)
        × (held.alt ≡ opts.alt)
        × (held.shift ≡ opts.shift)
        × (held.meta ≡ opts.meta))
unfolding system_modifiers_pass
system_modifiers_pass-exact opts held e = (
  λ h. (ground (arith, e, h), ground (arith, e, h), ground (arith, e, h), ground (arith, e, h)),
  λ (c, a, s, m). ground (arith, e, c, a, s, m),
)

needed : (required held : Bool) → (required ≡ true → held ≡ true) → (required && not held) ≡ false
needed true held h = rw (h refl) refl
needed false held h = refl

-- Without `.exact` the guards pass just when every requested key is held; other keys do not count.
pub system_modifiers_pass-inexact :
    (opts : EventOptions) (held : Held)
    → opts.exact ≡ false
    → (system_modifiers_pass opts held ≡ true) ↔ (
        (opts.ctrl ≡ true → held.ctrl ≡ true)
        × (opts.alt ≡ true → held.alt ≡ true)
        × (opts.shift ≡ true → held.shift ≡ true)
        × (opts.meta ≡ true → held.meta ≡ true))
unfolding system_modifiers_pass
system_modifiers_pass-inexact opts held e = (
  λ h. (
    λ k. ground (arith, e, h, k),
    λ k. ground (arith, e, h, k),
    λ k. ground (arith, e, h, k),
    λ k. ground (arith, e, h, k),
  ),
  λ (c, a, s, m).
      let c' = needed opts.ctrl held.ctrl c in
      let a' = needed opts.alt held.alt a in
      let s' = needed opts.shift held.shift s in
      let m' = needed opts.meta held.meta m in ground (arith, e, c', a', s', m'),
)
