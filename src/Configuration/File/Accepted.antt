-- ===== src/Configuration/File/Accepted.antt =====
-- A file that is accepted describes ports that can be set up.
use serial_ip.Base.{
  ℕ, zero, suc, true, inl, Option, none, some, List, [], ◌∷◌, ◌≡◌, ◌≢◌, refl, subst, arith,
}
use serial_ip.Base.Integer.{ℤ}
use serial_ip.Base.Text.{Text}
use serial_ip.Configuration.{TokenType, ConfigEntry, parse_entry}
use serial_ip.Configuration.Value.{Library}
use serial_ip.Configuration.Content.{Port, Config, Reading, keyword_table, hsearch}
use serial_ip.Configuration.Actions.{
  parity_words, flow_words, is_databits, is_stopbits, any_int, ignored,
}
use serial_ip.Configuration.File.{actions, act, next_line, read_lines, read_configuration_file}
use serial_ip.Serial.Speed.{valid_serial_speed}
use serial_ip.Configuration.File.{no_entry, start_reading}
use serial_ip.Configuration.File.Sound.{
  IsPort, IsGood, HasNumber, outcome, one_is_not_zero, none_is_not_some, IsSound, AllSound,
  switch-IsSound, conf_string-IsSound, conf_int-IsSound, port_device-IsSound,
  port_description-IsSound, port_speed-IsSound, port_int-IsSound, port_word-IsSound,
}

suc_is_not_zero : {n : ℕ} → suc n ≢ 0
suc_is_not_zero e = omega arith

ignored-IsSound : IsSound ignored
unfolding ignored
ignored-IsSound type t s s' g e = subst IsGood (outcome e).1 g

-- A port with one setting changed.
parity-IsPort :
    (p : Port) (n : ℕ) → IsPort p → HasNumber n parity_words → IsPort (record p { parity = n })
parity-IsPort p n h m = record {
  known_speed = h.known_speed;
  known_databits = h.known_databits;
  known_stopbits = h.known_stopbits;
  known_parity = ground arith;
  known_flow = h.known_flow;
}

flow-IsPort :
    (p : Port) (n : ℕ) → IsPort p → HasNumber n flow_words → IsPort (record p { flowcontrol = n })
flow-IsPort p n h m = record {
  known_speed = h.known_speed;
  known_databits = h.known_databits;
  known_stopbits = h.known_stopbits;
  known_parity = h.known_parity;
  known_flow = ground arith;
}

flushes-IsPort :
    (p : Port) (v w : ℤ) → IsPort p → IsPort (record p { conn_flush = v; disc_flush = w })
flushes-IsPort p v w h = record {
  known_speed = h.known_speed;
  known_databits = h.known_databits;
  known_stopbits = h.known_stopbits;
  known_parity = h.known_parity;
  known_flow = h.known_flow;
}

databits-IsPort :
    (p : Port) (v : ℤ) → IsPort p → is_databits v ≡ true → IsPort (record p { databits = v })
databits-IsPort p v h e = record {
  known_speed = h.known_speed;
  known_databits = e;
  known_stopbits = h.known_stopbits;
  known_parity = h.known_parity;
  known_flow = h.known_flow;
}

stopbits-IsPort :
    (p : Port) (v : ℤ) → IsPort p → is_stopbits v ≡ true → IsPort (record p { stopbits = v })
stopbits-IsPort p v h e = record {
  known_speed = h.known_speed;
  known_databits = h.known_databits;
  known_stopbits = e;
  known_parity = h.known_parity;
  known_flow = h.known_flow;
}

module _ (lib : Library) where
  actions-AllSound : AllSound (actions lib)
  actions-AllSound = (
    conf_string-IsSound lib _ _,
    (
      conf_string-IsSound lib _ _,
      (
        conf_string-IsSound lib _ _,
        (
          conf_string-IsSound lib _ _,
          (
            conf_string-IsSound lib _ _,
            (
              conf_int-IsSound lib _,
              (
                conf_string-IsSound lib _ _,
                (
                  conf_int-IsSound lib _,
                  (
                    conf_string-IsSound lib _ _,
                    (
                      conf_string-IsSound lib _ _,
                      (
                        conf_string-IsSound lib _ _,
                        (
                          port_device-IsSound lib,
                          (
                            port_description-IsSound lib,
                            (
                              port_speed-IsSound lib,
                              (
                                port_int-IsSound lib _ is_databits databits-IsPort,
                                (
                                  port_word-IsSound _ parity_words parity-IsPort,
                                  (
                                    port_int-IsSound lib _ is_stopbits stopbits-IsPort,
                                    (
                                      port_word-IsSound _ flow_words flow-IsPort,
                                      (
                                        port_int-IsSound lib _ any_int
                                            (λ p v h e. flushes-IsPort p v p.disc_flush h),
                                        (
                                          port_int-IsSound lib _ any_int
                                              (λ p v h e. flushes-IsPort p p.conn_flush v h),
                                          (
                                            conf_int-IsSound lib _,
                                            (
                                              conf_int-IsSound lib _,
                                              (
                                                conf_int-IsSound lib _,
                                                (
                                                  conf_int-IsSound lib _,
                                                  (conf_int-IsSound lib _, tt),
                                                ),
                                              ),
                                            ),
                                          ),
                                        ),
                                      ),
                                    ),
                                  ),
                                ),
                              ),
                            ),
                          ),
                        ),
                      ),
                    ),
                  ),
                ),
              ),
            ),
          ),
        ),
      ),
    ),
  )

  act-IsGood :
      (token : ℕ) (type : TokenType) (value : Option Text) (s s' : Reading)
      → IsGood s
      → act lib token type value s ≡ some (0, s')
      → IsGood s'
  unfolding act
  act-IsGood token type none s s' g e = subst IsGood (outcome e).1 g
  act-IsGood token type (some t) s s' g e =
      switch-IsSound token (actions lib) ignored actions-AllSound ignored-IsSound type t s s' g e

  next_line-IsGood :
      (loop : Reading → ConfigEntry → Option (ℕ × Reading)) (answer : Option (ℕ × Reading))
      (found : ConfigEntry) (s' : Reading)
      → ((t : Reading) → IsGood t → loop t found ≡ some (0, s') → IsGood s')
      → ((t : Reading) → answer ≡ some (0, t) → IsGood t)
      → next_line loop found answer ≡ some (0, s')
      → IsGood s'
  unfolding next_line
  next_line-IsGood loop none found s' more good h = cc
  next_line-IsGood loop (some (zero, t)) found s' more good h = more t (good t refl) h
  next_line-IsGood loop (some (suc n, t)) found s' more good h =
      absurd (suc_is_not_zero (outcome h).0)

  read_lines-IsGood :
      (lines : List Text) (s s' : Reading) (entry : ConfigEntry)
      → IsGood s
      → read_lines lib lines s entry ≡ some (0, s')
      → IsGood s'
  unfolding read_lines
  read_lines-IsGood [] s s' entry g e = subst IsGood (outcome e).1 g
  read_lines-IsGood (line ∷ lines) s s' entry g e =
      let (token, found) = parse_entry (hsearch keyword_table) line entry in
      next_line-IsGood (read_lines lib lines) (act lib token found.type found.value s) found s'
        (λ t h x. read_lines-IsGood lines t s' found h x)
        (λ t h. act-IsGood token found.type found.value s t g h) e

start-IsGood : (lib : Library) (conf : Config) → IsGood (start_reading lib conf)
unfolding valid_serial_speed
start-IsGood lib conf = record {
  defaults = record {
    known_speed = λ e. one_is_not_zero e;
    known_databits = refl;
    known_stopbits = refl;
    known_parity = omega arith;
    known_flow = inl refl;
  };
  before = tt;
  here = λ p e. absurd (none_is_not_some e);
}

-- A file that is read without an error describes ports that can be set up.
pub read_configuration_file-IsGood :
    (lib : Library) (file : Option (List Text)) (conf : Config) (s : Reading)
    → read_configuration_file lib file conf ≡ some (0, s)
    → IsGood s
unfolding read_configuration_file
read_configuration_file-IsGood lib none conf s e = absurd (one_is_not_zero (outcome e).0)
read_configuration_file-IsGood lib (some lines) conf s e =
    read_lines-IsGood lib lines (start_reading lib conf) s no_entry (start-IsGood lib conf) e
