-- ===== src/Dns/Snoop.antt =====
-- Windows/src/pb_dns.c: `snoop_dns_response`, which stores the addresses of a DNS answer under the name
-- that was asked for.
pub mod Told
use proxy_bridge.Prelude.{
  ℕ, zero, suc, ◌+◌, ◌-◌, ◌*◌, ◌%◌, ◌^◌, Bool, true, false, ◌&&◌, ◌||◌, not, List, Option, none,
  some, ltb, leb, ◌==◌, if◌then◌else◌, Bytes, equal, length, get_or, take, drop,
}
use proxy_bridge.CText.{before}
use proxy_bridge.Dns.{DnsEntry, dns_bucket, dns_bucket_v6, dns_cache_store}
use proxy_bridge.Dns.Names.{Parse, parsed, failed, no_fuel, dns_parse_name}

-- `dns_cache_table` and `dns_cache_table_v6`.
pub record DnsCaches : Type 0 where
  pub v4 : ℕ → List (DnsEntry ℕ)
  pub v6 : ℕ → List (DnsEntry Bytes)

-- Memory for an entry and the tick count, when so many answers are left.
pub record Moments : Type 0 where
  pub malloc : ℕ → Bool
  pub tick : ℕ → ℕ

-- The 16 bits at a place of the message.
abbrev pub field : Bytes → ℕ → ℕ
field msg at = get_or msg at 0 * 256 + get_or msg (at + 1) 0

-- The address as it stands in memory, the first byte lowest.
abbrev pub ip_at : Bytes → ℕ → ℕ
ip_at msg at =
    get_or msg at 0
    + (get_or msg (at + 1) 0 * 2 ^ 8
        + (get_or msg (at + 2) 0 * 2 ^ 16 + get_or msg (at + 3) 0 * 2 ^ 24))

abbrev pub ip6_at : Bytes → ℕ → Bytes
ip6_at msg at = take 16 (drop at msg)

-- An answer whose fields start at a place of the message: an A or an AAAA record is stored.
unfoldable pub store_record : Bool → ℕ → Bytes → Bytes → ℕ → DnsCaches → DnsCaches
store_record malloc now qname msg at c =
    if field msg at == 1 && field msg (at + 2) == 1 && field msg (at + 8) == 4
    then record c {
      v4 = dns_cache_store dns_bucket ◌==◌ malloc now (ip_at msg (at + 10)) qname c.v4;
    }
    else if field msg at == 28 && field msg (at + 2) == 1 && field msg (at + 8) == 16
    then record c {
      v6 = dns_cache_store dns_bucket_v6 equal malloc now (ip6_at msg (at + 10)) qname c.v6;
    }
    else c

-- The next answer: the place of its fields behind its name, or the walk ends.
pub data Next : Type 0 where
  ends : Next
  answer : ℕ → Next

unfoldable pub behind_name : Bytes → Parse → Next
behind_name msg (parsed name at) =
    if ltb (length msg) (at + 10)
    then ends
    else if ltb (length msg) (at + 10 + field msg (at + 8))
    then ends
    else answer at
behind_name msg failed = ends
behind_name msg no_fuel = ends

unfoldable pub next_answer : Bytes → ℕ → Next
unfolding behind_name
next_answer msg offset =
    if leb (length msg) offset then ends else behind_name msg (dns_parse_name msg 256 offset)

unfoldable pub parse_answers : Moments → ℕ → Bytes → Bytes → ℕ → DnsCaches → DnsCaches
parse_answers m zero qname msg offset c = c
parse_answers m (suc k) qname msg offset c = elim (next_answer msg offset) [
  | ends ↦ c
  | answer at ↦
      parse_answers m k qname msg (at + 10 + field msg (at + 8))
        (store_record (m.malloc k) (m.tick k) qname msg at c)
]

-- The place behind the questions that are left, if each of their names can be read.
unfoldable pub skip_questions : ℕ → Bytes → ℕ → Option ℕ
skip_questions zero msg offset = some offset
skip_questions (suc k) msg offset = elim (leb (length msg) offset) [
  | true ↦ some offset
  | false ↦ elim (dns_parse_name msg 256 offset) [
    | parsed name end ↦ skip_questions k msg (end + 4)
    | failed ↦ none
    | no_fuel ↦ none
  ]
]

unfoldable pub answers_at : Moments → Bytes → Bytes → Option ℕ → DnsCaches → DnsCaches
unfolding parse_answers
answers_at m qname msg none c = c
answers_at m qname msg (some offset) c = parse_answers m (field msg 6) qname msg offset c

-- The name goes on to the cache as a C string.
unfoldable pub after_question : Moments → Bytes → Parse → DnsCaches → DnsCaches
unfolding answers_at skip_questions
after_question m msg (parsed qname end) c =
    answers_at m (before qname 0) msg (skip_questions (field msg 4 - 1) msg (end + 4)) c
after_question m msg failed c = c
after_question m msg no_fuel c = c

-- A response without an error: the bit QR, and RCODE.
abbrev pub is_answer : Bytes → Bool
is_answer msg = leb 128 (get_or msg 2 0) && get_or msg 3 0 % 16 == 0

unfoldable pub snoop_dns_response : Moments → Bytes → DnsCaches → DnsCaches
unfolding after_question
snoop_dns_response m msg c =
    if ltb (length msg) 12
    then c
    else if not (is_answer msg)
    then c
    else if field msg 6 == 0
    then c
    else after_question m msg (dns_parse_name msg 256 12) c
