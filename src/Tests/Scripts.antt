-- ===== src/Tests/Scripts.antt =====
-- The script host's console, writes and memory calls at concrete inputs.
use sni_lua.Common.Int.{pos, negsuc, as_u32}
use sni_lua.Common.Map
use sni_lua.Common.{
  ℕ, ◌*◌, ◌%◌, ◌^◌, ◌≡◌, refl, [], ◌∷◌, none, some, length, map, Memᴰ, true, false, str, arith,
}
use sni_lua.Host.Calls.{buttons, tier, watch, reader}
use sni_lua.Host.Polled.{watched, reader-watch-polled}
use sni_lua.Host.Writes.{from_le_bytes, SentSize, write-from_le_bytes}
use sni_lua.Host.{
  Console, MouseState, feed, pressed, released, parse_text_align, parse_text_valign, write,
}
use sni_lua.Render.{middle}
use sni_lua.Snapshot.{Snapshot, u8, u16, bytes, read_u16}
use sni_lua.Tests.Data.{registry, registry-IsValid}
use sni_lua.Watch.Registry.{active_with_requests, next_seq, new, all, touch, register}
use sni_lua.Watch.{realtime}

abbrev one_line : Console
one_line = record { lines = str "[loaded] map.lua" ∷ [] }

write-from_le_bytes_example :
    ((write 0xF5_09C2 (negsuc 1) (some 2)).0.address ≡ 0xF5_09C2)
    × ((write 0xF5_09C2 (negsuc 1) (some 2)).0.size
        ≡ length (write 0xF5_09C2 (negsuc 1) (some 2)).1)
    × SentSize (length (write 0xF5_09C2 (negsuc 1) (some 2)).1) (some 2)
    × (from_le_bytes (write 0xF5_09C2 (negsuc 1) (some 2)).1
        ≡ as_u32 (negsuc 1) % 2 ^ (8 * length (write 0xF5_09C2 (negsuc 1) (some 2)).1))
write-from_le_bytes_example = write-from_le_bytes 0xF5_09C2 (negsuc 1) (some 2)

write_minus_two : (write 0xF5_09C2 (negsuc 1) (some 2)).1 ≡ 0xFE ∷ 0xFF ∷ []
unfolding write
write_minus_two = refl

write_clamped : length (write 0 (pos 1) (some 9)).1 ≡ 4
unfolding write
write_clamped = refl

-- the left button goes down, and is held in the next frame
abbrev clicked : MouseState ℕ
clicked = record {
  cur = record { pos = some (3, 4); buttons = (true, false, false); wheel = 0 };
  prev_buttons = (false, false, false);
}

pressed_once : (pressed clicked 0 ≡ true) × (pressed (feed clicked.cur clicked) 0 ≡ false)
unfolding pressed feed
pressed_once = (refl, refl)

released_elsewhere : released clicked 3 ≡ false
unfolding released
released_elsewhere = refl

centre_is_an_alignment : parse_text_valign (str "centre") ≡ some middle
unfolding parse_text_valign
centre_is_an_alignment = refl

justify_is_an_error : parse_text_align (str "justify") ≡ none
unfolding parse_text_align
justify_is_an_error = refl

abbrev pad : Snapshot
pad = record {
  bytes_of = (0, 0x10 ∷ 0x90 ∷ []) ∷ [];
  regions = [];
  age_cycles = [];
  cycle = 1;
  age_ms = 0;
  last_rtt_ms = 0;
}

-- B and Start are held, and R; the read touches the watch
start_is_held :
    ((buttons (watch new 0x8B 2 none 5).0 pad 0 9).1
      ≡ some (record {
        b = true;
        y = false;
        select = false;
        start = true;
        up = false;
        down = false;
        left = false;
        right = false;
        a = false;
        x = false;
        l = false;
        r = true;
        raw = 0x9010;
      }))
    × (map (λ h. h.region.address) (all (buttons (watch new 0x8B 2 none 5).0 pad 0 9).0)
        ≡ 0xF5_008B ∷ [])
unfolding buttons watch u16 bytes read_u16 new all touch register Map.get Map.insert Map.update
start_is_held = (refl, refl)

hint_is_case_insensitive :
    map (λ h. h.priority) (all (tier (watch new 0x8B 2 none 5).0 0 (str "RealTime") 9))
    ≡ realtime ∷ []
unfolding tier watch new all register Map.update Map.insert
hint_is_case_insensitive = refl

reader-watch-polled_example :
    (Map.get 3 registry.inner ≡ none)
    × Memᴰ
        (
          watched registry 0x998 1 (some (str "high")) 40,
          next_seq (watch registry 0x998 1 (some (str "high")) 40).0,
        )
        (active_with_requests
          (reader u8 (watch registry 0x998 1 (some (str "high")) 40).0 pad 3 50).0
          30
          70)
unfolding watch
reader-watch-polled_example =
    reader-watch-polled u8 pad registry 0x998 1 (some (str "high")) 40 50 30 70 registry-IsValid
      (omega arith) (omega arith)
