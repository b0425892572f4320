-- ===== src/Router/Built.antt =====
-- `closing` of crates/router/src/router.rs, from the registered apis to the router that is given away.
use dce_rust.Base.{suc, length, arith, ◌≡◌, ◌⊎◌, refl, List, [], inl, inr}
use dce_rust.Text.{Str}
use dce_rust.Error.{Outcome, ok, err, panics, out_of_fuel, DceErr, ◌>>=◌}
use dce_rust.Router.Registry.{Router, close}
use dce_rust.Router.Registry.Grouping.{close_from-total}
use dce_rust.Router.Build.{PathTree, build_tree, closing}

-- A router that is closed has the tree, and no api is left in its buffer.
abbrev pub IsClosedWith : {Rp D : Type 0} → PathTree Rp → Router Rp D → Type 0
IsClosedWith tree closed = (closed.apis_tree ≡ tree) × (closed.api_buffer ≡ [])

-- One run ends as the other does, where it fails.
abbrev pub FailsAs : {A B : Type 0} → Outcome A → Outcome B → Type 0
FailsAs {A} {B} m n =
    ((m ≡ panics) × (n ≡ panics))
    ⊎ (((e : DceErr) × (m ≡ err e) × (n ≡ err e)) ⊎ ((m ≡ out_of_fuel) × (n ≡ out_of_fuel)))

close-IsClosedWith :
    {Rp D : Type 0} (router : Router Rp D)
    → (closed : Router Rp D) × (close router ≡ ok closed) × IsClosedWith router.apis_tree closed
unfolding close
close-IsClosedWith router =
    let (m, done) =
      close_from-total router (suc (length router.api_buffer)) router.api_buffer router.apis_mapping
        (omega arith) in
    (record router { api_buffer = []; apis_mapping = m }, rw done refl, (refl, refl))

-- Closing a router fails only as the building of its tree does: where the tree is built, whatever
-- the apis are, it gives a router that has this tree and an empty buffer.
pub closing-build_tree :
    {Rp D : Type 0} (hash_order : List Str → List Str) (router : Router Rp D)
    → ((tree : PathTree Rp) × (build_tree hash_order router.api_buffer router.apis_tree ≡ ok tree)
        × ((closed : Router Rp D) × (closing hash_order router ≡ ok closed)
            × IsClosedWith tree closed))
      ⊎ FailsAs
          (closing hash_order router)
          (build_tree hash_order router.api_buffer router.apis_tree)
unfolding closing
closing-build_tree {Rp} {D} hash_order router =
    by_tree (build_tree hash_order router.api_buffer router.apis_tree)
  where
    with_tree : PathTree Rp → Router Rp D
    with_tree tree = record router { apis_tree = tree }

    by_tree :
        (o : Outcome (PathTree Rp))
        → ((tree : PathTree Rp) × (o ≡ ok tree)
            × ((closed : Router Rp D) × ((o >>= λ t. close (with_tree t)) ≡ ok closed)
                × IsClosedWith tree closed))
          ⊎ FailsAs (o >>= λ t. close (with_tree t)) o
    by_tree (ok tree) = inl (tree, refl, close-IsClosedWith (with_tree tree))
    by_tree (err e) = inr (inr (inl (e, refl, refl)))
    by_tree panics = inr (inl (refl, refl))
    by_tree out_of_fuel = inr (inr (inr (refl, refl)))
