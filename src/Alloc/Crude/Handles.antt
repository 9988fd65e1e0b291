-- ===== src/Alloc/Crude/Handles.antt =====
-- A handle packed in 32 bits.
use salgo.Base.{◌+◌, ◌*◌, ◌/◌, ◌%◌, ◌^◌, ◌<◌, ◌≡◌, ap, ◌∙◌, bit_or, arith}
use salgo.Base.Masks.{bit_or-fields, bit_and-mask}
use salgo.Alloc.Crude.{Handle, pack, unpack}

-- A handle whose parts are in the ranges that the code checks is packed in 32 bits without loss:
-- unpacking gives the handle back.
pub unpack-pack :
    (h : Handle) → h.a < 2 ^ 5 → h.b < 2 ^ 27 → (pack h < 2 ^ 32) × (unpack (pack h) ≡ h)
unfolding pack unpack
unpack-pack h ha hb =
    let high : h.a * 2 ^ 27 % 2 ^ 32 ≡ h.a * 2 ^ 27 = omega arith in
    let word : bit_or (h.a * 2 ^ 27 % 2 ^ 32) h.b ≡ h.a * 2 ^ 27 + h.b =
      ap (λ t. bit_or t h.b) high ∙ bit_or-fields 27 h.a h.b hb in
    let a_is : (h.a * 2 ^ 27 + h.b) / 2 ^ 27 ≡ h.a = omega arith in
    let b_is : (h.a * 2 ^ 27 + h.b) % 2 ^ 27 ≡ h.b = omega arith in
    rw word
      (omega arith, λ i. record { a = a_is i; b = (bit_and-mask 27 (h.a * 2 ^ 27 + h.b) ∙ b_is) i })
