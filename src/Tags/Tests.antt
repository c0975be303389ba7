-- ===== src/Tags/Tests.antt =====
-- Tags at concrete inputs.
use openpcc.Base.{[], ◌∷◌}
use openpcc.Tags.{Tags}

-- `a=1`, `ab=2` and `a=3`
abbrev tags : Tags
tags =
    (b'a' ∷ b'=' ∷ b'1' ∷ [], tt)
    ∷ (b'a' ∷ b'b' ∷ b'=' ∷ b'2' ∷ [], tt)
    ∷ (b'a' ∷ b'=' ∷ b'3' ∷ [], tt)
    ∷ []
