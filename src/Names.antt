-- ===== src/Names.antt =====
-- The functions of utilities.c that name codes for the log.
pub mod Distinct
use serial_ip.Base.{ℕ, zero, suc, ◌+◌, ◌/◌, ◌%◌, List, [], ◌∷◌, ◌++◌, ltb, if◌then◌else◌, take}
use serial_ip.Base.Switch.{switch}
use serial_ip.Base.Text.{Text, codes}
use serial_ip.Telnet.Codes.{
  iac, dont, do_, wont, will, break_, sb, telopt_binary, telopt_echo, telopt_sga, telopt_logout,
  telopt_com_port_option, telopt_kermit,
}

-- `%d` of a byte
abbrev pub decimal : ℕ → Text
decimal n =
    let units = (48 + n % 10) ∷ [] in
    let tens = (48 + n / 10 % 10) ∷ units in
    if ltb n 10 then units else if ltb n 100 then tens else (48 + n / 100) ∷ tens

-- `snprintf(p, 3, "%d", n)`: two characters and the NUL.
abbrev pub two_digits : ℕ → Text
two_digits n = take 2 (decimal n)

abbrev pub parity_names : List (ℕ × Text)
parity_names =
    (1, codes "None")
    ∷ (2, codes "Odd")
    ∷ (3, codes "Even")
    ∷ (4, codes "Mark")
    ∷ (5, codes "Space")
    ∷ []

unfoldable pub telnet_cpc_parity2str : ℕ → Text
telnet_cpc_parity2str optcode = switch optcode parity_names (codes "Code " ++ two_digits optcode)

abbrev pub datasize_names : List (ℕ × Text)
datasize_names = (8, codes "CS8") ∷ (7, codes "CS7") ∷ (6, codes "CS6") ∷ (5, codes "CS5") ∷ []

unfoldable pub telnet_cpc_datasize2str : ℕ → Text
telnet_cpc_datasize2str datasize = switch datasize datasize_names (codes "CS8")

abbrev pub subopt_names : List (ℕ × Text)
subopt_names =
    (0, codes "Signature C2S")
    ∷ (100, codes "Signature S2C")
    ∷ (1, codes "Set Baudrate C2S")
    ∷ (101, codes "Set Baudrate S2C")
    ∷ (2, codes "Set Datasize C2S")
    ∷ (102, codes "Set Datasize S2C")
    ∷ (3, codes "Set Parity C2S")
    ∷ (103, codes "Set Parity S2C")
    ∷ (4, codes "Set Stopsize C2S")
    ∷ (104, codes "Set Stopsize S2C")
    ∷ (5, codes "Set Control C2S")
    ∷ (105, codes "Set Control S2C")
    ∷ (6, codes "Notify Linestate C2S")
    ∷ (106, codes "Notify Linestate S2C")
    ∷ (7, codes "Notify Modemstate C2S")
    ∷ (107, codes "Notify Modemstate S2C")
    ∷ (8, codes "Suspend Flowcontrol C2S")
    ∷ (108, codes "Suspend Flowcontrol S2C")
    ∷ (9, codes "Resume Flowcontrol C2S")
    ∷ (109, codes "Resume Flowcontrol S2C")
    ∷ (10, codes "Set Linestate Mask C2S")
    ∷ (110, codes "Set Linestate Mask S2C")
    ∷ (11, codes "Set Modemstate Mask C2S")
    ∷ (111, codes "Set Modemstate Mask S2C")
    ∷ (12, codes "Purge Data C2S")
    ∷ (112, codes "Purge Data S2C")
    ∷ []

unfoldable pub telnet_cpc_subopt2str : ℕ → Text
telnet_cpc_subopt2str suboptcode =
    switch suboptcode subopt_names (codes "Code " ++ two_digits suboptcode)

abbrev pub stopsize_names : List (ℕ × Text)
stopsize_names = (1, codes "1") ∷ (2, codes "2") ∷ (3, codes "1.5") ∷ []

unfoldable pub telnet_cpc_stopsize2str : ℕ → Text
telnet_cpc_stopsize2str optcode =
    switch optcode stopsize_names (codes "Code " ++ two_digits optcode)

abbrev pub optcode_names : List (ℕ × Text)
optcode_names =
    (iac, codes "IAC")
    ∷ (dont, codes "DONT")
    ∷ (do_, codes "DO")
    ∷ (wont, codes "WONT")
    ∷ (will, codes "WILL")
    ∷ (break_, codes "BREAK")
    ∷ (sb, codes "SB")
    ∷ []

unfoldable pub telnet_optcode2str : ℕ → Text
telnet_optcode2str optcode = switch optcode optcode_names (codes "UNKNOWN")
