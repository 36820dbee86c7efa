-- ===== src/LogLines.antt =====
-- src/mq_adapters/log.py: how destinations and bodies are shown in log lines.
use Prim.Native.String.{◌++◌ as ◌<>◌}
use rabbitmq_pika_adapter.Prelude.{
  ℕ, zero, suc, ◌+◌, ◌≤◌, ◌≡◌, refl, String, Bool, true, false, List, [], ◌∷◌, ◌++◌, leb, length,
  length-append, if◌then◌else◌, arith, Bool-cases, inl, inr,
}
use rabbitmq_pika_adapter.Value.{Value, Fields, null, string, dict, get_or, truthy}
use rabbitmq_pika_adapter.Serializer.{Message, bytes}

abbrev is_none : Value → Bool
is_none null = true
is_none _ = false

abbrev part : Bool → String → List String
part true s = s ∷ []
part false s = []

-- `",".join(parts)`
abbrev join : String → List String → String
join p [] = p
join p (q ∷ ps) = p <> ("," <> join q ps)

abbrev joined : List String → String
joined [] = "<destination>"
joined (p ∷ ps) = join p ps

-- `render` is `str`.
module _ (render : Value → String) where
  abbrev parts : Fields → List String
  parts d =
      let exchange = get_or "exchange_name" null d in
      let key = get_or "routing_key" null d in
      let queue = get_or "predefined_queue_name" null d in
      part (truthy exchange) ("exchange=" <> render exchange)
      ++ (part (if is_none key then false else true) ("routing_key=" <> render key)
          ++ part (truthy queue) ("queue=" <> render queue))

  unfoldable pub destination_str : Value → String
  unfolding get_or truthy
  destination_str null = "<unknown>"
  destination_str (string s) = s
  destination_str (dict d) = joined (parts d)
  destination_str v = render v

-- `b[:n]`
abbrev first : ℕ → List ℕ → List ℕ
first n [] = []
first zero (b ∷ bs) = []
first (suc n) (b ∷ bs) = b ∷ first n bs

-- `b"..."`
abbrev dots : List ℕ
dots = 46 ∷ 46 ∷ 46 ∷ []

abbrev truncated : ℕ → List ℕ → List ℕ
truncated max_len b = if leb (length b) max_len then b else first max_len b ++ dots

-- Bodies that are no bytes are left alone.
unfoldable pub maybe_repr_bytes : ℕ → Message → Message
maybe_repr_bytes max_len (bytes b) = bytes (truncated max_len b)
maybe_repr_bytes max_len m = m

length-first : (n : ℕ) (b : List ℕ) → length (first n b) ≤ n
length-first n [] = omega arith
length-first zero (b ∷ bs) = omega arith
length-first (suc n) (b ∷ bs) = omega (arith, length-first n bs)

-- What is shown of a body has at most `max_len` bytes and the dots.
pub maybe_repr_bytes-bounded :
    (max_len : ℕ) (b : List ℕ)
    → (shown : List ℕ) × (maybe_repr_bytes max_len (bytes b) ≡ bytes shown)
      × (length shown ≤ max_len + 3)
unfolding maybe_repr_bytes
maybe_repr_bytes-bounded max_len b = (
  truncated max_len b,
  refl,
  elim (Bool-cases (leb (length b) max_len)) [
    | inl short ↦ rw short (ground arith)
    | inr long ↦
        rw long (omega (arith, length-append (first max_len b) dots, length-first max_len b))
  ],
)
