-- ===== src/Telnet/Codes.antt =====
-- The numbers of <arpa/telnet.h> (RFC 854 and the option RFCs) that telnet.c uses, and those that
-- serial_ip.h defines for the Com Port Control option (RFC 2217).
use serial_ip.Base.{ℕ}

abbrev pub iac : ℕ
iac = 255

abbrev pub dont : ℕ
dont = 254

abbrev pub do_ : ℕ
do_ = 253

abbrev pub wont : ℕ
wont = 252

abbrev pub will : ℕ
will = 251

abbrev pub sb : ℕ
sb = 250

abbrev pub break_ : ℕ
break_ = 243

abbrev pub se : ℕ
se = 240

abbrev pub telopt_binary : ℕ
telopt_binary = 0

abbrev pub telopt_echo : ℕ
telopt_echo = 1

abbrev pub telopt_sga : ℕ
telopt_sga = 3

abbrev pub telopt_logout : ℕ
telopt_logout = 18

abbrev pub telopt_com_port_option : ℕ
telopt_com_port_option = 44

abbrev pub telopt_kermit : ℕ
telopt_kermit = 47

abbrev pub max_telnet_cpc_command_len : ℕ
max_telnet_cpc_command_len = 256
