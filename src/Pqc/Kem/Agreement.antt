-- ===== src/Pqc/Kem/Agreement.antt =====
-- Both sides of the key exchange derive the same key.
use sovereign_edge_tee_agent.Base.{Bytes, ◌≡◌, arith}
use sovereign_edge_tee_agent.Pqc.Error.{ok}
use sovereign_edge_tee_agent.Pqc.Crypto.{Crypto, IsKeyExchange}
use sovereign_edge_tee_agent.Pqc.Kem.{
  HybridEncapsulation, generate, combine, encapsulate_to_peer, decapsulate_from_peer,
}

module _ (c : Crypto) (k : IsKeyExchange c) where
  -- With a correct key exchange, encapsulating to a generated public key succeeds, and the owner of
  -- the key derives the same shared key from what is sent, for all random inputs.
  pub decapsulate-encapsulate_to_peer :
      (secret random eph_secret eph_random : Bytes)
      → let bob = generate c secret random in
        (e : HybridEncapsulation) × (key : Bytes) × (encapsulate_to_peer c bob.local_public
            eph_secret eph_random
          ≡ ok (e, key))
        × (decapsulate_from_peer c bob e ≡ ok key)
  unfolding generate encapsulate_to_peer decapsulate_from_peer
  decapsulate-encapsulate_to_peer s r es er =
      let pub_key = (c.mlkem_keypair r).1 in
      (
        record {
          x25519_ephemeral_pubkey = c.x25519_public es;
          mlkem_ciphertext = (c.encapsulate pub_key er).0;
        },
        combine c (c.diffie_hellman es (c.x25519_public s)) (c.encapsulate pub_key er).1,
        ground (arith, k.key_size r, k.key_check r, k.secret_size r er),
        ground (
          arith,
          k.ciphertext_size r er,
          k.secret_size r er,
          k.decapsulate-encapsulate r er,
          k.dh_comm s es,
        ),
      )
