-- ===== src/Net/State.antt =====
-- `NetState` of src/devices/virtio_net.rs, with the TAP and the queues seen through their answers,
-- which the calls use up in order.
use kitsune.Base.{
  ℕ, ◌*◌, ◌/◌, ◌%◌, ◌^◌, Bool, true, false, Option, List, [], ◌∷◌, ◌++◌, if◌then◌else◌, replicate,
  to_le_bytes, copy_from_slice, bit_or, bit_xor, u32_mod,
}

abbrev pub queue_rx : ℕ
queue_rx = 0

abbrev pub queue_tx : ℕ
queue_tx = 1

abbrev pub net_hdr_len : ℕ
net_hdr_len = 12

-- A chain of the guest's to read from: its bytes, unless `Reader::new` fails, and whether
-- `read_exact` succeeds.
pub record TxChain : Type 0 where
  pub head_index : ℕ
  pub readable : Option (List ℕ)
  pub read_ok : Bool

-- A chain to write to: its room, unless `Writer::new` fails, and whether `write_all` succeeds.
pub record RxChain : Type 0 where
  pub head_index : ℕ
  pub available_bytes : Option ℕ
  pub writes : Bool

-- How a write to the TAP ends, and a read from it.
pub data TapWrite : Type 0 where
  wrote : ℕ → TapWrite
  write_blocks write_eintr write_fails : TapWrite

pub data TapRead : Type 0 where
  frame : List ℕ → TapRead
  read_blocks read_eintr read_fails : TapRead

-- What became of a frame from the TAP.
pub data Fate : Type 0 where
  given dropped : List ℕ → Fate

-- `NetState`: `pending_tx` is the head with the bytes of `tx_scratch` that are held, which nothing
-- writes to meanwhile, and `pending_rx` likewise those of `rx_scratch`. `used` is what was returned to
-- the guest, by queue, head and length, `sent` the frames that the TAP took.
pub record NetState : Type 0 where
  pub pending_tx : Option (ℕ × List ℕ)
  pub pending_rx : Option (List ℕ)
  pub tx_ready : Bool
  pub rx_ready : Bool
  pub tx : List TxChain
  pub rx : List RxChain
  pub adds : List Bool
  pub tap_writes : List TapWrite
  pub tap_reads : List TapRead
  pub used : List (ℕ × ℕ × ℕ)
  pub sent : List (List ℕ)
  pub fates : List Fate

-- `StepResult`: whether a descriptor was completed, with an error or without.
pub data StepResult : Type 0 where
  fine fails : Bool → StepResult

abbrev pub flag : StepResult → Bool
flag (fine used) = used
flag (fails used) = used

abbrev pub Stepped : Type 0
Stepped = StepResult × NetState

-- `add_used`, by how it ends.
abbrev pub add_answer : List Bool → ℕ → ℕ → ℕ → NetState → Bool × NetState
add_answer [] queue head len s = (false, s)
add_answer (true ∷ rest) queue head len s =
    (true, record s { adds = rest; used = s.used ++ (queue, head, len) ∷ [] })
add_answer (false ∷ rest) queue head len s = (false, record s { adds = rest })

-- `add_used`: whether it succeeds.
unfoldable pub add_used : ℕ → ℕ → ℕ → NetState → Bool × NetState
add_used queue head len s = add_answer s.adds queue head len s

-- `config_space`
unfoldable pub config_space : List ℕ → List ℕ
config_space mac = copy_from_slice (copy_from_slice (replicate 8 0) 0 mac) 6 (to_le_bytes 2 1)

abbrev pub base_features : ℕ
base_features = bit_or (bit_or (2 ^ 32) (2 ^ 5)) (2 ^ 16)

abbrev pub offload_features : ℕ
offload_features =
    bit_or
      (bit_or
        (bit_or (bit_or (bit_or (bit_or (bit_or (2 ^ 0) (2 ^ 1)) (2 ^ 11)) (2 ^ 12)) (2 ^ 13))
          (2 ^ 7))
        (2 ^ 8))
      (2 ^ 9)

-- `advertised_features`
unfoldable pub advertised_features : Bool → ℕ
advertised_features offloads =
    if offloads then bit_or base_features offload_features else base_features

-- The hash of `mac_from_name`.
unfoldable pub name_hash : ℕ → List ℕ → ℕ
name_hash h [] = h
name_hash h (b ∷ bs) = name_hash (bit_xor h b * 0x0100_0193 % u32_mod) bs

-- `mac_from_name`
unfoldable pub mac_from_name : List ℕ → List ℕ
mac_from_name ifname =
    let h = name_hash 0x811c_9dc5 ifname in
    0x52 ∷ 0x54 ∷ 0 ∷ h / 2 ^ 16 % 256 ∷ h / 2 ^ 8 % 256 ∷ h % 256 ∷ []
