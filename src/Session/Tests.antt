-- ===== src/Session/Tests.antt =====
-- Colors of sessions.
use ccdash.Prelude.{◌≡◌, ◌≢◌, refl, arith, false, [], codes}
use ccdash.Session.Colors.{color, color_apart, palette_index, valid_color}

color-test : color [] 2 (codes "x") ≡ codes "#d946ef"
unfolding color palette_index
color-test = refl

valid_color-test : valid_color (codes "#12ab") ≡ false
unfolding valid_color
valid_color-test = refl

color_apart_example : color [] 41 (codes "a") ≢ color [] 42 (codes "b")
color_apart_example =
    color_apart 41 42 (codes "a") (codes "b") (omega arith) (omega arith) (omega arith)
      (omega arith)
