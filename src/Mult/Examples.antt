-- ===== src/Mult/Examples.antt =====
-- Mult at concrete operands.
use os_project2_nach_os.Base.{◌+◌, ◌*◌, ◌<◌, ◌≡◌, refl, true, arith}
use os_project2_nach_os.Mult.{mult, unsigned_product}
use os_project2_nach_os.Mult.Product.{signed_product, mult-product}

-- The product of -3 and 7 is -21.
minus_three_by_seven : mult 4294967293 7 true ≡ record { high = 4294967295; low = 4294967275 }
unfolding mult unsigned_product
minus_three_by_seven = refl

mult-product_example :
    ((mult 4294967293 7 true).high * 4294967296 + (mult 4294967293 7 true).low
      ≡ signed_product 4294967293 7)
    × ((mult 4294967293 7 true).high < 4294967296)
    × ((mult 4294967293 7 true).low < 4294967296)
mult-product_example = mult-product 4294967293 7 true (omega arith) (omega arith)
