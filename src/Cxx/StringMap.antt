-- ===== src/Cxx/StringMap.antt =====
-- std::map<std::string, std::string>, which the examples fill and look up and never walk through:
-- an association list.
use boost_asio_cpp_network_p.Common.{
  ◌≡◌, Option, none, some, List, [], ◌∷◌, arith, if◌then◌else◌, Bytes, beq, beq_refl, Bool-cases,
  inl, inr,
}

abbrev pub StringMap : Type 0
StringMap = List (Bytes × Bytes)

unfoldable pub lookup : Bytes → StringMap → Option Bytes
lookup k [] = none
lookup k ((j, v) ∷ m) = if beq j k then some v else lookup k m

-- A key that is there keeps its value.
unfoldable pub emplace : Bytes → Bytes → StringMap → StringMap
emplace k v [] = (k, v) ∷ []
emplace k v ((j, w) ∷ m) = if beq j k then (j, w) ∷ m else (j, w) ∷ emplace k v m

-- `m[k] = v`.
unfoldable pub assign : Bytes → Bytes → StringMap → StringMap
assign k v [] = (k, v) ∷ []
assign k v ((j, w) ∷ m) = if beq j k then (j, v) ∷ m else (j, w) ∷ assign k v m

pub lookup-emplace_self :
    (k v : Bytes) (m : StringMap)
    → lookup k (emplace k v m) ≡ elim (lookup k m) [ none ↦ some v | some w ↦ some w ]
unfolding lookup emplace
lookup-emplace_self k v [] = rw (beq_refl k)
lookup-emplace_self k v ((j, w) ∷ m) = elim (Bool-cases (beq j k)) [
  | inl e ↦ ground (arith, e)
  | inr e ↦ ground (arith, e, lookup-emplace_self k v m)
]

pub lookup-assign_self : (k v : Bytes) (m : StringMap) → lookup k (assign k v m) ≡ some v
unfolding lookup assign
lookup-assign_self k v [] = rw (beq_refl k)
lookup-assign_self k v ((j, w) ∷ m) = elim (Bool-cases (beq j k)) [
  | inl e ↦ ground (arith, e)
  | inr e ↦ ground (arith, e, lookup-assign_self k v m)
]
