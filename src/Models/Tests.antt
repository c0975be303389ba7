-- ===== src/Models/Tests.antt =====
-- The table of the models at concrete inputs.
use openpcc.Base.{◌≡◌, refl, List, [], ◌∷◌, ok}
use openpcc.Base.Int.{pos}
use openpcc.Models.{Model, get_model}

abbrev small : Model
small = record { name = b's' ∷ []; context_length = pos 8 }

abbrev table : List Model
table = small ∷ record { name = b'l' ∷ []; context_length = pos 64 } ∷ []

small_found : get_model (b's' ∷ []) table ≡ ok small
unfolding get_model
small_found = refl
