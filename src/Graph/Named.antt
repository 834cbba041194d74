-- ===== src/Graph/Named.antt =====
-- The names of connections: those of roscope/visualizer/graph.py and those of
-- roscope/entities/helpers.py.
use roscope.Base.{
  Text, true, false, [], ◌∷◌, ◌++◌, some, ◌≡◌, ◌∙◌, ap, refl, arith, rstrip, rstrip-append,
  rstrip-eq_self, ends_with, append_assoc,
}
use roscope.Namespace.{slash, truthy, expand_private, expand_relative, expand_connection_name}
use roscope.Graph.{absolute_name}
use roscope.Graph.Walk.{fqn_of}

rstrip-fqn_of :
    (ns name : Text)
    → truthy (some name) ≡ true
    → ends_with slash name ≡ false
    → rstrip slash (fqn_of ns name) ≡ fqn_of ns name
rstrip-fqn_of ns [] h k = absurd (cc)
rstrip-fqn_of ns (d ∷ name) h k =
    let kept = rstrip-eq_self slash (slash ∷ d ∷ name) k in
    rstrip-append slash (rstrip slash ns) (slash ∷ d ∷ name) kept
    ∙ ap (λ s. rstrip slash ns ++ s) kept

expand_relative-append : (base name : Text) → base ++ slash ∷ name ≡ expand_relative base name
unfolding expand_relative
expand_relative-append [] name = refl
expand_relative-append (c ∷ base) name = refl

expand_private-append :
    (base name suffix : Text)
    → truthy (some name) ≡ true
    → (base ++ slash ∷ name) ++ slash ∷ suffix ≡ expand_private base (some name) suffix
unfolding expand_private
expand_private-append base [] suffix h = absurd (cc)
expand_private-append [] (d ∷ name) suffix h = refl
expand_private-append (c ∷ base) (d ∷ name) suffix h =
    append_assoc (c ∷ base) (slash ∷ d ∷ name) (slash ∷ suffix)

-- For a node whose name is not empty and has no slash at its end, the graph resolves the name of a
-- connection as the launch context does that registers it.
pub absolute_name-agrees :
    (conn_name ns name : Text)
    → truthy (some name) ≡ true
    → ends_with slash name ≡ false
    → absolute_name conn_name (fqn_of ns name) ns
      ≡ expand_connection_name conn_name (some ns) (some name)
unfolding absolute_name expand_connection_name
absolute_name-agrees [] ns name h k = expand_relative-append (rstrip slash ns) []
absolute_name-agrees (c ∷ []) ns name h k =
    ground (arith, expand_relative-append (rstrip slash ns) (c ∷ []))
absolute_name-agrees (c ∷ d ∷ rest) ns name h k =
    let private =
      ap (λ s. s ++ slash ∷ rest) (rstrip-fqn_of ns name h k)
      ∙ expand_private-append (rstrip slash ns) name rest h in
    ground (arith, private, expand_relative-append (rstrip slash ns) (c ∷ d ∷ rest))
