-- ===== src/Storage/Invites/Tests.antt =====
-- An invite of the toy node to its group, over a serialiser that knows this invite alone.
use gpu_share.Storage.Invites.Exchange.{decode_invite-encode_invite}
use gpu_share.Security.Crypto.{public_key_hex, sign_b64, from_seed}
use mathlib.Core.Logic.{if_neg, if_pos, ite}
use gpu_share.Security.Crypto.Toy.{alice, toy_crypto}
use gpu_share.Base.{
  bad, str_iff, good, Bool-cases, Json, replicate, Parsed, ℕ, String, List, [], ◌∷◌, inl, inr, ◌≡◌,
  refl, ap, sym, arith, ◌==◌, nat_eq, string_eq,
}
use gpu_share.Common.{ok}
use gpu_share.Base.Int.{ℤ, pos, ltb_ℤ, leb_ℤ, ◌+ℤ◌, ◌-ℤ◌}
use gpu_share.Storage.Groups.{Group}
use gpu_share.Storage.Invites.{
  bare_invite, encode_invite, create_invite, decode_invite, GroupInvite,
}
use native.Mathlib.Decide.{ℕ_discrete}

abbrev seed : List ℕ
seed = 1 ∷ replicate 31 0

abbrev lab : Group
lab = record {
  id = "grp-lab";
  name = "lab";
  owner_node_id = alice.node_id;
  created_at = pos 5;
  members = [];
}

abbrev invite : GroupInvite
invite = record {
  version = 1;
  group_id = "grp-lab";
  group_name = "lab";
  owner_node_id = alice.node_id;
  owner_name = "alice";
  owner_public_key_hex = public_key_hex toy_crypto alice;
  issued_at = pos 1000;
  signature = toy_crypto.b64_encode (replicate 64 1);
}

text-discrete : Discrete String
text-discrete a b = elim (Bool-cases (a == b)) [
  | inl e ↦ yes ((str_iff a b).0 e)
  | inr e ↦ no (λ p. ground (arith, (str_iff a b).1 p))
]

time-discrete : Discrete ℤ
time-discrete = hlevel ℕ_discrete

GroupInvite-discrete : Discrete GroupInvite
GroupInvite-discrete = hlevel (ℕ_discrete, time-discrete, text-discrete)

print : GroupInvite → Parsed (List ℕ)
print i = ite (GroupInvite-discrete i invite) (good (1 ∷ [])) (bad "unknown invite")

parse-print : (i : GroupInvite) (bytes : List ℕ) → print i ≡ good bytes → good invite ≡ good i
unfolding print
parse-print i bytes h = elim (GroupInvite-discrete i invite) [
  | yes e ↦ ap good (sym e)
  | no n ↦ absurd (no_bytes (rw (if_neg _ n) at h))
]
  where
    no_bytes : bad "unknown invite" ≡ good bytes → ⊥
    no_bytes e = cc

abbrev json : Json GroupInvite
json = record { to_vec = print; from_slice = λ b. good invite; from_slice-to_vec = parse-print }

print-invite : print invite ≡ good (1 ∷ [])
unfolding print
print-invite =
    if_pos (GroupInvite-discrete invite invite) refl (good (1 ∷ [])) (bad "unknown invite")

made : create_invite toy_crypto json (pos 1000) (from_seed toy_crypto seed) lab "alice" ≡ invite
unfolding create_invite bare_invite toy_crypto sign_b64 from_seed
made = refl

encoded :
    encode_invite toy_crypto json
      (create_invite toy_crypto json (pos 1000) (from_seed toy_crypto seed) lab "alice")
    ≡ ok "1."
unfolding encode_invite
encoded = rw made (rw print-invite (unfold toy_crypto in refl))

decode_invite-encode_invite_example :
    decode_invite toy_crypto json (pos 4600) "1."
    ≡ ok (create_invite toy_crypto json (pos 1000) (from_seed toy_crypto seed) lab "alice")
decode_invite-encode_invite_example =
    decode_invite-encode_invite toy_crypto json seed lab "alice" (pos 1000) (pos 4600) "1." refl
      (unfold ltb_ℤ leb_ℤ ◌-ℤ◌ ◌+ℤ◌ in refl) encoded
