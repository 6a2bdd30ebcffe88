-- ===== src/Tests/BrokerRpc.antt =====
-- The method `client.list` of the broker of Tests/Broker.
use mathlib.Core.List.{Perm, Mem}
use busrt.Broker.Maps.{lookup}
use busrt.Broker.Rpc.{ClientInfo, Codec, ◌>>=◌, info_of, infos, client_list}
use busrt.Broker.Rpc.Listing.{IsListed, IsSorted, no_params, client_list-Listing}
use mathlib.Core.Option
use busrt.Rpc.Error.{succeeded}
use busrt.Protocol.Error.{ok}
use busrt.Broker.Fifo.{Params, send_fifo_cmd, call0, value_of, strip_prefix}
use busrt.Broker.Fifo.Lines.{last_value, send_fifo_cmd-call}
use busrt.Tests.Maps.{exact_maps}
use busrt.Tests.Broker.{running}
use busrt.Base.{
  ℕ, ◌-◌, ◌≡◌, refl, true, ◌&&◌, Option, none, some, List, [], ◌∷◌, ◌++◌, arith, leb, if◌then◌else◌,
  Bytes, codes, bytes_eq,
}

-- The encoding is the names one after the other.
abbrev names : List ClientInfo → Bytes
names [] = []
names (x ∷ xs) = x.name ++ names xs

abbrev codec : Codec
codec = record {
  filter_of = λ p. succeeded none;
  regex = λ f. succeeded (λ n. bytes_eq n f);
  encode_info = succeeded [];
  encode_stats = λ s. succeeded [];
  encode_list = λ l. succeeded (names l);
}

client_list-Listing_example :
    (l : List ClientInfo) × (client_list exact_maps codec running []
      ≡ (codec.encode_list l >>= (λ list. succeeded (some list))))
    × IsSorted l
    × Perm (infos exact_maps (λ n. true) running.objects running.clients) l
    × ((n : Bytes) (r : ℕ)
        → lookup n running.clients ≡ some r
        → (running.objects r).primary ≡ true
        → true ≡ true
        → Mem (info_of exact_maps (running.objects r)) l)
    × ((i : ClientInfo) → Mem i l → ∥ IsListed exact_maps running (λ n. true) i ∥₁)
client_list-Listing_example =
    client_list-Listing exact_maps codec running [] (λ n. true) (no_params refl (λ n. refl))

abbrev no_number : Bytes → Option ℕ
no_number v = none

abbrev one_digit : Bytes → Option ℕ
one_digit (b ∷ []) = if leb b'0' b && leb b b'9' then some (b - b'0') else none
one_digit _ = none

abbrev kvs : List (Bytes × Bytes)
kvs = (codes "n", codes "5") ∷ (codes "s", codes "x") ∷ (codes "n", codes "7") ∷ []

send_fifo_cmd-call_example :
    (params : Params ℕ ℕ) × (send_fifo_cmd one_digit no_number
        (λ s. s)
        true
        (codes "t :m n=5 s=x n=7")
      ≡ ok (call0 (codes "t") (codes "m") params))
    × ((k : Bytes) → lookup k params ≡ Option.map (value_of one_digit no_number) (last_value k kvs))
unfolding strip_prefix
send_fifo_cmd-call_example =
    send_fifo_cmd-call one_digit no_number (λ s. s) (codes "t") (codes "m") kvs refl (ground arith)
      (ground arith) (ground arith) (ground arith)
