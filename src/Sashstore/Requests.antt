-- ===== src/Sashstore/Requests.antt =====
-- The fields of a request, and the buffers that a request and its response fit into.
use net_blast.Base.{ℕ, ◌+◌, ◌≤◌, ◌≡◌, List, length, u64}
use net_blast.Buffer.Reads.{slice}
use net_blast.SashMap.{key_size, value_size}
use net_blast.Sashstore.{Totals, header_size, request_size, set_value, get_response_size}

abbrev pub mode_of : List ℕ → ℕ → List ℕ
mode_of frame at = slice frame (at + header_size) 4

abbrev pub key_of : List ℕ → ℕ → List ℕ
key_of frame at = slice frame (at + request_size) key_size

abbrev pub value_of : List ℕ → ℕ → List ℕ
value_of frame at = slice frame (at + set_value) value_size

-- Behind the offset `at` the buffer has room for the longest of all requests and responses.
abbrev pub HasRoom : List ℕ → ℕ → Type 0
HasRoom frame at = at + get_response_size ≤ length frame

-- Every request of a kind was answered in one of the two ways, up to the wrap-around of the counts.
abbrev pub IsCounted : Totals → Type 0
IsCounted t = (t.set ≡ u64 (t.stored + t.not_stored)) × (t.get ≡ u64 (t.retrieved + t.not_found))
