-- ===== src/Lua/KafkaKey.antt =====
-- lua/kafka.go: the key under which setKafkaConfig stores a value.
use logd_go.Base.{
  equal, equal_iff, equal_refl, not, ◌≢◌, ◌≤◌, ◌≡◌, refl, Bool, true, false, some, [], ◌∷◌, ◌++◌,
  length, Bytes, codes, has_prefix, ◌>>=◌, Bool-cases, inl, inr, arith, ap, ◌∙◌,
}
use logd_go.Lua.Kafka.{
  KafkaApi, Dynamic, in_cutset, trim_left, kafka_prefix, normalize_kafka_value, set_kafka_config,
}

-- Whether a text begins with a character of the cutset.
abbrev pub starts_in : Bytes → Bytes → Bool
starts_in cutset [] = false
starts_in cutset (c ∷ s) = in_cutset cutset c

not_equal : (s t : Bytes) → s ≢ t → equal s t ≡ false
not_equal s t n = elim (Bool-cases (equal s t)) [
  | inl h ↦ absurd (n ((equal_iff s t).0 h))
  | inr h ↦ h
]

length-trim_left : (s cutset : Bytes) → length (trim_left s cutset) ≤ length s
unfolding trim_left
length-trim_left [] cutset = ground arith
length-trim_left (c ∷ s) cutset = ground (arith, length-trim_left s cutset)

-- A text is left as it is exactly if it does not begin with a character of the cutset.
trim_left-equal : (s cutset : Bytes) → equal (trim_left s cutset) s ≡ not (starts_in cutset s)
unfolding trim_left
trim_left-equal [] cutset = equal_refl []
trim_left-equal (c ∷ s) cutset = elim (Bool-cases (in_cutset cutset c)) [
  | inl h ↦ rw h (
      not_equal (trim_left s cutset) (c ∷ s)
        (λ e. ground (arith, length-trim_left s cutset, ap length e)))
  | inr h ↦ rw h (equal_refl (c ∷ s))
]

trim_left-kafka_prefix :
    (s : Bytes) → trim_left (kafka_prefix ++ s) kafka_prefix ≡ trim_left s kafka_prefix
unfolding trim_left
trim_left-kafka_prefix s = refl

has_prefix-append : (p s : Bytes) → has_prefix (p ++ s) p ≡ true
has_prefix-append [] s = refl
has_prefix-append (c ∷ p) s = ground (arith, has_prefix-append p s)

starts_in-kaf : (s : Bytes) → starts_in kafka_prefix s ≡ starts_in (codes "kaf.") s
starts_in-kaf [] = refl
starts_in-kaf (c ∷ s) = ground arith

module _ (api : KafkaApi) where
  open api use {ConfigMap, set_key, Float}

  -- Setting "kafka." followed by s stores the value, normalised, under a key that is s exactly if s does not
  -- begin with one of the characters k, a, f and dot; it reports that the key was one of Kafka's, and panics
  -- if SetKey gives an error.
  pub set_kafka_config-key :
      (s : Bytes) (x : Dynamic Float) (cfg : ConfigMap)
      → (t : Bytes) × (set_kafka_config api (kafka_prefix ++ s) x cfg
          ≡ (set_key t (normalize_kafka_value api x) cfg >>= (λ c. some (c, true))))
        × (equal t s ≡ not (starts_in (codes "kaf.") s))
  unfolding set_kafka_config
  set_kafka_config-key s x cfg = (
    trim_left s kafka_prefix,
    rw (has_prefix-append kafka_prefix s) (rw (trim_left-kafka_prefix s) refl),
    trim_left-equal s kafka_prefix ∙ ap not (starts_in-kaf s),
  )
