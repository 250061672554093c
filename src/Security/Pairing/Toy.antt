-- ===== src/Security/Pairing/Toy.antt =====
-- A serialiser of pairing payloads that knows a single one, that of a toy node.
use gpu_share.Base.{
  bad, str_iff, good, Parsed, Bool-cases, replicate, Json, ℕ, String, none, List, [], ◌∷◌, inl, inr,
  ◌≡◌, refl, ap, sym, arith, ◌==◌, nat_eq, string_eq,
}
use mathlib.Core.Logic.{if_pos, if_neg, ite}
use native.Mathlib.Decide.{ℕ_discrete}
use gpu_share.Security.Crypto.{public_key_hex}
use gpu_share.Security.Crypto.Toy.{toy_crypto, alice}
use gpu_share.Security.Pairing.{PairingPayload}
use gpu_share.Base.Int.{pos, ℤ}

abbrev pub payload : PairingPayload
payload = record {
  version = 1;
  node_id = alice.node_id;
  node_name = "alice";
  public_key_hex = public_key_hex toy_crypto alice;
  addrs = [];
  gpu_model = none;
  vram_mb = none;
  issued_at = pos 1000;
  signature = "";
}

abbrev pub target : PairingPayload
target = record payload { signature = toy_crypto.b64_encode (replicate 64 1) }

String-discrete : Discrete String
String-discrete a b = elim (Bool-cases (a == b)) [
  | inl e ↦ yes ((str_iff a b).0 e)
  | inr e ↦ no (λ p. ground (arith, (str_iff a b).1 p))
]

ℤ-discrete : Discrete ℤ
ℤ-discrete = hlevel ℕ_discrete

PairingPayload-discrete : Discrete PairingPayload
PairingPayload-discrete = hlevel (ℕ_discrete, ℤ-discrete, String-discrete)

-- A serialiser that knows the signed payload alone.
pub write : PairingPayload → Parsed (List ℕ)
write p = ite (PairingPayload-discrete p target) (good (1 ∷ [])) (bad "unknown payload")

pub read-write : (p : PairingPayload) (bytes : List ℕ) → write p ≡ good bytes → good target ≡ good p
unfolding write
read-write p bytes h = elim (PairingPayload-discrete p target) [
  | yes e ↦ ap good (sym e)
  | no n ↦ absurd (no_bytes (rw (if_neg _ n) at h))
]
  where
    no_bytes : bad "unknown payload" ≡ good bytes → ⊥
    no_bytes e = cc

abbrev pub json : Json PairingPayload
json = record { to_vec = write; from_slice = λ b. good target; from_slice-to_vec = read-write }

pub write-target : write target ≡ good (1 ∷ [])
unfolding write
write-target =
    if_pos (PairingPayload-discrete target target) refl (good (1 ∷ [])) (bad "unknown payload")
