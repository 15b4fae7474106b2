-- ===== src/Examples/Outside.antt =====
-- Concrete functions for what the code calls outside the repository: origins, the host and its
-- codec, the HTTP client, the JSON parser, the transaction helpers, and keys. Each satisfies the
-- laws that the model asks of its parameter.
use cyborg_chain.Prelude.{
  ◌==◌, if◌then◌else◌, Bool-cases, is_some, Bytes, length, Dict, lookup, ℕ, ◌≡◌, refl, ◌≢◌, inl,
  inr, true, not, Option, none, some, [], ◌∷◌, Memᴰ, arith,
}
use cyborg_chain.Frame.{AccountId, BlockNumber, Frame}
use cyborg_chain.Http.{answered, Client}
use cyborg_chain.WorkerRegistration.{ClusterId, IndexingData, Host}
use cyborg_chain.WorkerRegistration.Offchain.{Json}
use cyborg_chain.EdgeConnect.Choose.{Stored, Mutated, written, value_function_failed}
use cyborg_chain.EdgeConnect.Offchain.{Signer}
use cyborg_chain.Runtime.Transaction.{Signing}
use cyborg_chain.Node.ChainSpec.{Keys}

-- An origin is a signer, or none.
abbrev pub frame : Frame
frame = record {
  Origin = Option AccountId;
  ensure_signed = λ o. o;
  ensure_none = λ o. not (is_some o);
}

abbrev hash_from : ℕ → Bytes
hash_from b =
    b ∷ 0 ∷ 0 ∷ 0 ∷ 0 ∷ 0 ∷ 0 ∷ 0 ∷ 0 ∷ 0 ∷ 0 ∷ 0 ∷ 0 ∷ 0 ∷ 0 ∷ 0 ∷ 0 ∷ 0 ∷ 0 ∷ 0 ∷ 0 ∷ 0 ∷ 0 ∷ 0
    ∷ 0 ∷ 0 ∷ 0 ∷ 0 ∷ 0 ∷ 0 ∷ 0 ∷ 0 ∷ []

-- A "hash" that keeps the first byte.
abbrev hash : Bytes → Bytes
hash [] = hash_from 0
hash (b ∷ bs) = hash_from b

abbrev encode_data : IndexingData → Bytes
encode_data d = d.id ∷ d.label

abbrev decode_data : Bytes → Option IndexingData
decode_data [] = none
decode_data (n ∷ bytes) = some (record { label = bytes; id = n })

-- The entries of other keys.
abbrev without : ℕ → Dict ClusterId → Dict ClusterId
without k [] = []
without k ((j, v) ∷ d) = let rest = without k d in if j == k then rest else (j, v) ∷ rest

abbrev entries : Dict ClusterId → Dict ClusterId
entries [] = []
entries ((k, v) ∷ d) = (k, v) ∷ without k (entries d)

without_sound :
    (k a : ℕ) (c : ClusterId) (d : Dict ClusterId)
    → Memᴰ (a, c) (without k d)
    → Memᴰ (a, c) d × (a ≢ k)
without_sound k a c [] m = elim m [ ]
without_sound k a c ((j, v) ∷ d) m = elim (Bool-cases (j == k)) [
  | inl same ↦
      let m' = rw same at m in let (there, ne) = without_sound k a c d m' in (Memᴰ.tail there, ne)
  | inr other ↦
      let m' = rw other at m in
      elim m' [
        | Memᴰ.head e ↦ (Memᴰ.head e, ground arith)
        | Memᴰ.tail t ↦ let (there, ne) = without_sound k a c d t in (Memᴰ.tail there, ne)
      ]
]

without_complete :
    (k a : ℕ) (c : ClusterId) (d : Dict ClusterId)
    → Memᴰ (a, c) d
    → a ≢ k
    → Memᴰ (a, c) (without k d)
without_complete k a c [] m ne = elim m [ ]
without_complete k a c ((j, v) ∷ d) (Memᴰ.head e) ne = elim (Bool-cases (j == k)) [
  | inl same ↦ absurd (ground arith)
  | inr other ↦ rw other (Memᴰ.head e)
]
without_complete k a c ((j, v) ∷ d) (Memᴰ.tail t) ne = elim (Bool-cases (j == k)) [
  | inl same ↦ rw same (without_complete k a c d t ne)
  | inr other ↦ rw other (Memᴰ.tail (without_complete k a c d t ne))
]

pub entries_sound :
    (d : Dict ClusterId) (a : ℕ) (c : ClusterId) → Memᴰ (a, c) (entries d) → lookup a d ≡ some c
unfolding lookup
entries_sound [] a c m = elim m [ ]
entries_sound ((k, v) ∷ d) a c (Memᴰ.head e) = ground arith
entries_sound ((k, v) ∷ d) a c (Memᴰ.tail t) =
    let (there, ne) = without_sound k a c (entries d) t in ground (arith, entries_sound d a c there)

pub entries_complete :
    (d : Dict ClusterId) (a : ℕ) (c : ClusterId) → lookup a d ≡ some c → Memᴰ (a, c) (entries d)
unfolding lookup
entries_complete [] a c h = absurd (ground arith)
entries_complete ((k, v) ∷ d) a c h = elim (Bool-cases (k == a)) [
  | inl same ↦ Memᴰ.head (ground arith)
  | inr other ↦
      Memᴰ.tail
        (without_complete k a c (entries d) (entries_complete d a c (ground arith)) (ground arith))
]

pub hash_length : (b : Bytes) → length (hash b) ≡ 32
hash_length [] = refl
hash_length (b ∷ bs) = refl

pub block_injective : (m n : BlockNumber) → m ∷ [] ≡ n ∷ [] → m ≡ n
block_injective m n h = cc

abbrev pub host : Host
host = record {
  blake2_256 = hash;
  length-blake2_256 = hash_length;
  encode_block = λ n. n ∷ [];
  encode_block_injective = block_injective;
  encode_data = encode_data;
  decode_data = decode_data;
  decode-encode_data = λ d. refl;
  iter = entries;
  iter_sound = entries_sound;
  iter_complete = entries_complete;
}

-- A client whose every request is answered at once with code 200 and the given body.
abbrev pub client : Bytes → Client
client body = record {
  deadline = λ n. n;
  get = λ url deadline. some (λ n. answered (record { code = 200; body = body }));
}

-- A parser that takes any body for a deployed cluster.
abbrev pub json : Json
json body = some (record { deployment_status = true })

-- One account, whose signatures are empty and always verify.
abbrev pub signer : Signer
signer = record {
  can_sign = true;
  verify = λ p sig. true;
  send_signed = λ f. (1, f 1, true) ∷ [];
  send_signed_calls = λ f. (refl, tt);
  send_unsigned_any = λ f g. some (1, [], true);
  send_unsigned_any_verifies = λ f g t h. refl;
  send_unsigned_all = λ f g. (1, [], true) ∷ [];
  send_unsigned_all_verifies = λ f g. (refl, tt);
  submit_unsigned = λ c. true;
}

abbrev or_failed : Option BlockNumber → Mutated
or_failed none = value_function_failed
or_failed (some n) = written n

-- An entry that no other worker writes.
abbrev pub mutate : Stored → (Stored → Option BlockNumber) → Mutated
mutate entry f = or_failed (f entry)

pub some_injective :
    (c : ℕ) (e : (ℕ × ℕ) × ℕ × ℕ) (p : ℕ × ((ℕ × ℕ) × ℕ × ℕ)) → some (c, e) ≡ some p → p ≡ (c, e)
some_injective c e p h = cc

abbrev pub signing : Signing
signing = record {
  Call = ℕ;
  Era = ℕ × ℕ;
  Payload = ℕ × ((ℕ × ℕ) × ℕ × ℕ);
  Signature = Bytes;
  Signer = ℕ;
  mortal = λ period current. (period, current);
  new_payload = λ c e. some (c, e);
  deconstruct = λ p. p;
  deconstruct-new_payload = some_injective;
  encode = λ p. p.0 ∷ [];
  sign = λ payload public. some (public ∷ payload);
}

-- Keys by the length of the secret text.
abbrev pub keys : Keys
keys = record {
  aura = λ s. some (length s);
  grandpa = λ s. some (length s);
  sr25519 = λ s. some (length s);
  into_account = λ n. n;
  from_ss58check = λ s. some (length s);
}
