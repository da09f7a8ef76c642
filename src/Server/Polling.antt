-- ===== src/Server/Polling.antt =====
-- The loops that poll a socket: what they skip and what they use up.
use riscv_openocd_jtag_mock.Prelude.{
  ℕ, zero, suc, ◌<◌, ◌≡◌, ◌⊎◌, inl, inr, refl, ◌∙◌, arith, List, [], ◌∷◌, length, done, waiting,
}
use riscv_openocd_jtag_mock.Server.{
  Accepted, client, nobody, accept_failed, Received, byte, closed, no_data, read_failed, Sent,
  written, not_written, write_failed, accept_client, read_byte, write_byte,
}

-- The bytes that the client sends.
abbrev pub bytes_of : List Received → List ℕ
bytes_of [] = []
bytes_of (byte b ∷ rest) = b ∷ bytes_of rest
bytes_of (_ ∷ rest) = bytes_of rest

-- No `read()` fails.
abbrev pub AreRead : List Received → Type 0
AreRead [] = Unit {0}
AreRead (read_failed ∷ rest) = ⊥
AreRead (_ ∷ rest) = AreRead rest

-- `n` bytes get written.
abbrev pub Delivers : List Sent → ℕ → Type 0
Delivers ws zero = Unit {0}
Delivers [] (suc n) = ⊥
Delivers (written ∷ ws) (suc n) = Delivers ws n
Delivers (not_written ∷ ws) (suc n) = Delivers ws (suc n)
Delivers (write_failed ∷ ws) (suc n) = ⊥

-- The first byte, and what is left behind it.
pub record FirstRead (reads : List Received) : Type 0 where
  pub first : ℕ
  pub rest : List Received
  pub found : read_byte reads ≡ done (first, rest)
  pub bytes : bytes_of reads ≡ first ∷ bytes_of rest
  pub rest_read : AreRead rest
  pub shorter : length rest < length reads

-- What the loop finds: nothing, or a first byte.
abbrev pub Polled : List Received → Type 0
Polled reads = ((read_byte reads ≡ waiting) × (bytes_of reads ≡ [])) ⊎ FirstRead reads

-- An event that the loop skips changes nothing of that.
skip :
    (r : Received) (reads : List Received)
    → read_byte (r ∷ reads) ≡ read_byte reads
    → bytes_of (r ∷ reads) ≡ bytes_of reads
    → Polled reads
    → Polled (r ∷ reads)
skip r reads e b (inl (n, m)) = inl (e ∙ n, b ∙ m)
skip r reads e b (inr f) = inr (record {
  first = f.first;
  rest = f.rest;
  found = e ∙ f.found;
  bytes = b ∙ f.bytes;
  rest_read = f.rest_read;
  shorter = omega (arith, f.shorter);
})

pub read_byte-cases : (reads : List Received) → AreRead reads → Polled reads
unfolding read_byte
read_byte-cases [] h = inl (refl, refl)
read_byte-cases (byte b ∷ reads) h = inr (record {
  first = b;
  rest = reads;
  found = refl;
  bytes = refl;
  rest_read = h;
  shorter = omega arith;
})
read_byte-cases (closed ∷ reads) h = skip closed reads refl refl (read_byte-cases reads h)
read_byte-cases (no_data ∷ reads) h = skip no_data reads refl refl (read_byte-cases reads h)
read_byte-cases (read_failed ∷ reads) h = absurd h

pub write_byte-Delivers :
    (ws : List Sent) (n : ℕ)
    → Delivers ws (suc n)
    → (rest : List Sent) × (write_byte ws ≡ done rest) × Delivers rest n
unfolding write_byte
write_byte-Delivers [] n h = absurd h
write_byte-Delivers (written ∷ ws) n h = (ws, refl, h)
write_byte-Delivers (not_written ∷ ws) n h = write_byte-Delivers ws n h
write_byte-Delivers (write_failed ∷ ws) n h = absurd h

-- Each loop uses up an event before it returns.
pub read_byte-shorter :
    (reads rest : List Received) (b : ℕ)
    → read_byte reads ≡ done (b, rest)
    → length rest < length reads
unfolding read_byte
read_byte-shorter [] rest b e = ground arith
read_byte-shorter (byte c ∷ reads) rest b e = ground arith
read_byte-shorter (closed ∷ reads) rest b e = omega (arith, read_byte-shorter reads rest b e)
read_byte-shorter (no_data ∷ reads) rest b e = omega (arith, read_byte-shorter reads rest b e)
read_byte-shorter (read_failed ∷ reads) rest b e = ground arith

pub accept_client-shorter :
    (accepts rest : List Accepted) (fd : ℕ)
    → accept_client accepts ≡ done (fd, rest)
    → length rest < length accepts
unfolding accept_client
accept_client-shorter [] rest fd e = ground arith
accept_client-shorter (client c ∷ accepts) rest fd e = ground arith
accept_client-shorter (nobody ∷ accepts) rest fd e =
    omega (arith, accept_client-shorter accepts rest fd e)
accept_client-shorter (accept_failed ∷ accepts) rest fd e = ground arith
