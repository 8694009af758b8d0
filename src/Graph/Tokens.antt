-- ===== src/Graph/Tokens.antt =====
-- The tokens of the kinds of nodes and edges in graph/src/lib.rs: `as_token` and `from_token`.
use ckos.Base.{String, Bool, true, false, ◌≡◌, refl, ◌==◌, string_eq, if◌then◌else◌}
use ckos.Graph.{
  NodeKind, EdgeKind, kind_token, kind_of_lower, kind_from_token, edge_token, edge_of_lower,
  edge_from_token,
}

-- Lower-casing leaves the tokens of the program and what it has lowered as they are.
pub record IsLowering (lower : String → String) : Type 0 where
  pub again : (s : String) → lower (lower s) ≡ lower s
  pub concept : lower "concept" ≡ "concept"
  pub document : lower "document" ≡ "document"
  pub person : lower "person" ≡ "person"
  pub organization : lower "organization" ≡ "organization"
  pub tool : lower "tool" ≡ "tool"
  pub api : lower "api" ≡ "api"
  pub project : lower "project" ≡ "project"
  pub depends_on : lower "depends_on" ≡ "depends_on"
  pub implements : lower "implements" ≡ "implements"
  pub references : lower "references" ≡ "references"
  pub created_by : lower "created_by" ≡ "created_by"
  pub related_to : lower "related_to" ≡ "related_to"

-- A choice has a property that both of its results have.
choice {ℓ κ} :
    {A : Type ℓ} (P : A → Type κ) (b : Bool) {x y : A}
    → P x
    → (b ≡ false → P y)
    → P (if b then x else y)
choice P true px py = px
choice P false px py = py refl

module _ (lower : String → String) (low : IsLowering lower) where
  -- Printing a kind of node and reading it again gives the kind.
  IsStable : NodeKind → Type 0
  IsStable k = kind_from_token lower (kind_token lower k) ≡ k

  kind_of_lower-IsStable : (t : String) → lower t ≡ t → IsStable (kind_of_lower lower t)
  unfolding kind_of_lower IsStable kind_token kind_from_token
  kind_of_lower-IsStable t same = choice IsStable (t == "concept") (rw low.concept refl) (λ a.
      choice IsStable (t == "document") (rw low.document refl) (λ b.
        choice IsStable (t == "person") (rw low.person refl) (λ c.
          choice IsStable (t == "organization") (rw low.organization refl) (λ d.
            choice IsStable (t == "tool") (rw low.tool refl) (λ e.
              choice IsStable (t == "api") (rw low.api refl) (λ f.
                choice IsStable (t == "project") (rw low.project refl)
                  (λ g. rw (same, same, a, b, c, d, e, f, g) refl)))))))

  IsStableEdge : EdgeKind → Type 0
  IsStableEdge k = edge_from_token lower (edge_token lower k) ≡ k

  edge_of_lower-IsStableEdge : (t : String) → lower t ≡ t → IsStableEdge (edge_of_lower lower t)
  unfolding edge_of_lower IsStableEdge edge_token edge_from_token
  edge_of_lower-IsStableEdge t same =
      choice IsStableEdge (t == "depends_on") (rw low.depends_on refl) (λ a.
        choice IsStableEdge (t == "implements") (rw low.implements refl) (λ b.
          choice IsStableEdge (t == "references") (rw low.references refl) (λ c.
            choice IsStableEdge (t == "created_by") (rw low.created_by refl) (λ d.
              choice IsStableEdge (t == "related_to") (rw low.related_to refl)
                (λ e. rw (same, same, a, b, c, d, e) refl)))))

  -- Where lower-casing leaves the program's own tokens and lowered texts as they are, the kind of
  -- node that is read from any token is read again from the token it prints as, and so is the kind of
  -- edge.
  pub from_token-as_token :
      (token : String)
      → (kind_from_token lower (kind_token lower (kind_from_token lower token))
          ≡ kind_from_token lower token)
        × (edge_from_token lower (edge_token lower (edge_from_token lower token))
            ≡ edge_from_token lower token)
  unfolding kind_from_token edge_from_token IsStable IsStableEdge
  from_token-as_token token = (
    kind_of_lower-IsStable (lower token) (low.again token),
    edge_of_lower-IsStableEdge (lower token) (low.again token),
  )
