-- ===== src/Ring/Tests.antt =====
-- The ring at concrete inputs: two routers with two positions each, of which one is removed.
use openpcc.Base.{◌≡◌, refl, not, ◌&&◌, none, some, [], ◌∷◌, if◌then◌else◌}
use openpcc.Base.Dict.{lookup, list_eq, nat_eq, ◌===◌}
use openpcc.Ring.{Uuid, Ring, remove_router, owner_of}
use openpcc.Ring.Keeping.{has_position, left_over, count_position, left_count, remove_router_lem}

abbrev one : Uuid
one = 1 ∷ []

abbrev two : Uuid
two = 2 ∷ []

abbrev shared : Ring
shared = record {
  routers = (one, tt) ∷ (two, tt) ∷ [];
  pos_to_router = (10, one) ∷ (20, two) ∷ (30, one) ∷ (40, two) ∷ [];
  positions = 10 ∷ 20 ∷ 30 ∷ 40 ∷ [];
}

one_known : lookup one shared.routers ≡ some tt
unfolding lookup
one_known = refl

remove_router_lem_example :
    let r' = remove_router one shared in
    (lookup two r'.routers ≡ (if two === one then none else lookup two shared.routers))
    × (lookup 20 r'.pos_to_router ≡ left_over one shared.positions shared.pos_to_router 20)
    × ((owner_of 20 r'.pos_to_router === one)
        ≡ (owner_of 20 shared.pos_to_router === one) && not (has_position 20 shared.positions))
    × (count_position 20 r'.positions ≡ left_count one shared.positions shared.pos_to_router 20)
remove_router_lem_example = remove_router_lem one two 20 shared refl one_known
