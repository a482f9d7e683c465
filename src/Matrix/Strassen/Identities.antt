-- ===== src/Matrix/Strassen/Identities.antt =====
-- The sums of the seven products that are the quarters of the product.
use dsalib.Core.{◌≡◌, ℤ, ◌+ℤ◌, ◌-ℤ◌, eq_of_parts}
use dsalib.Core.{int_laws}

-- The four quarters in terms of the products of quarters: `xpq` with `p` a quarter of the left matrix
-- and `q` one of the right.
pub upper_left :
    (x11 x14 x23 x24 x41 x43 x44 : ℤ)
    → ((x11 +ℤ x14) +ℤ (x41 +ℤ x44))
        +ℤ (x43 -ℤ x41)
        -ℤ (x14 +ℤ x24)
        +ℤ ((x23 +ℤ x24) -ℤ (x43 +ℤ x44))
      ≡ x11 +ℤ x23
upper_left x11 x14 x23 x24 x41 x43 x44 =
    eq_of_parts
      (((x11 +ℤ x14) +ℤ (x41 +ℤ x44))
        +ℤ (x43 -ℤ x41)
        -ℤ (x14 +ℤ x24)
        +ℤ ((x23 +ℤ x24) -ℤ (x43 +ℤ x44)))
      (x11 +ℤ x23) (omega int_laws)

pub upper_right : (x12 x14 x24 : ℤ) → (x12 -ℤ x14) +ℤ (x14 +ℤ x24) ≡ x12 +ℤ x24
upper_right x12 x14 x24 = eq_of_parts ((x12 -ℤ x14) +ℤ (x14 +ℤ x24)) (x12 +ℤ x24) (omega int_laws)

pub lower_left : (x31 x41 x43 : ℤ) → (x31 +ℤ x41) +ℤ (x43 -ℤ x41) ≡ x31 +ℤ x43
lower_left x31 x41 x43 = eq_of_parts ((x31 +ℤ x41) +ℤ (x43 -ℤ x41)) (x31 +ℤ x43) (omega int_laws)

pub lower_right :
    (x11 x12 x14 x31 x32 x41 x44 : ℤ)
    → (x12 -ℤ x14)
        +ℤ ((x11 +ℤ x14) +ℤ (x41 +ℤ x44))
        -ℤ (x31 +ℤ x41)
        -ℤ ((x11 +ℤ x12) -ℤ (x31 +ℤ x32))
      ≡ x32 +ℤ x44
lower_right x11 x12 x14 x31 x32 x41 x44 =
    eq_of_parts
      ((x12 -ℤ x14)
        +ℤ ((x11 +ℤ x14) +ℤ (x41 +ℤ x44))
        -ℤ (x31 +ℤ x41)
        -ℤ ((x11 +ℤ x12) -ℤ (x31 +ℤ x32)))
      (x32 +ℤ x44) (omega int_laws)
