-- ===== src/Lib.antt =====
-- cominit, an init for the initramfs that verifies the metadata of a rootfs partition, maps the
-- rootfs with the device mapper, mounts it and switches into it.
--
-- The program's parts and their files here. `main` (src/cominit.c) reads the kernel command line
-- (Cli; the log level goes to Output, src/output.c), finds the rootfs partition, on the command line
-- or by its GPT type (Automount, src/automount.c), loads and verifies its metadata (Meta/Load,
-- src/meta.c, with the signature check of Crypto, src/crypto.c), parses it and builds the
-- device-mapper table (Meta/Parse, Meta/Verity, Meta/Integrity, with keys from Keyring,
-- src/keyring.c), sets up the mapping (Dmctl, src/dmctl.c), mounts the rootfs and switches into it
-- (Minsetup, src/minsetup.c). Functions keep their names without the prefix cominit, in snake case;
-- a part of a longer function has a name of its own. Base has the shared lists, tests and the type of
-- a running function, Libc what the source uses of the C library: strtok_r, strchr, strtoul and the
-- conversions of snprintf, on strings as lists of bytes.
-- Boot has `main`, from its arguments to the program that takes over, Boot/Selinux the SELinux policy, and
-- Crypto/Passphrase the passphrase of the secure storage. In a build with the TPM, Boot/Protect lets it
-- measure the key and protect the secure storage between the load of the metadata and the mount of the
-- rootfs: Tpm (src/tpm.c) seals a passphrase to PCRs or unseals it, with buffers of Securememory
-- (src/securememory.c), and sets up an encrypted volume with the programs of Cryptsetup
-- (src/cryptsetup.c), which Subprocess (src/subprocess.c) runs. The arguments of a program are an event
-- of the trace, and so is what a buffer for a key holds when it is given back.
--
-- Machine/Frame and Machine/Returns are for statements on all runs, failing ones included: a frame is
-- a relation between the machine before and after, with the calls that it allows, and the modules
-- named Quiet show, function by function, that a part stays within any frame that allows its calls.
-- Machine/Held counts what a trace of calls holds (descriptors, streams, buffers, contexts of the crypto
-- library, handles of the TPM); the modules named Held show, function by function, that a part gives back
-- what it gets, by the rules of Machine/Held/Balance and Machine/Held/Bracket. Machine/Halts has the rules
-- for functions that come to an end whatever is answered, and the modules named Halts apply them up to the
-- boot.
-- Machine/Way has diagrams of phases, with the programs that are started along their edges, and
-- Machine/Follows what it is for a run to follow one; Tpm/Protect/Diagram is that of the secure storage.
--
-- State. The structure cominitRfsMetaData_t (inc/meta.h) is passed around by pointer: it is the field
-- `meta` of Machine, which every step takes and returns, also when it fails. A call out of the program
-- (a system call, an ioctl, an MbedTLS function) is an event; what it answers is a parameter `kernel`
-- that sees all earlier events, so theorems hold for each behaviour of the kernel that their
-- hypotheses allow. Outcomes are done (0), failed (-1), hung (out of fuel, or the process has ended or
-- been replaced) and fault (an access out of bounds). Theorems about what the calls were speak of the
-- trace, the newest event first.
--
-- Bounds and fuel. Numbers of C are natural numbers with the wrap-around at 2^64 or 2^32 written
-- out. Five loops on the machine run on fuel: the read loop, where a round for each byte is enough
-- if read(2) delivers at least one byte; the options of dm-integrity, the key descriptions of the
-- emulated HSM and the directories of a path (cominitMkdir), whose fuel is more than the length of
-- the text, while each round takes a byte of it; and the scan of /dev, whose rounds are an
-- argument: more than the entries of the directory are enough. The loop over PCR indexes has fuel for
-- each character of its argument. Sizes of the buffers are those of inc/meta.h. The number of PCRs and the sizes of the structures of the TPM
-- stack, constants of its headers, are parameters.
--
-- Not modelled. Checks for NULL pointers and the text of messages, but for the level filter; how nftw(3)
-- walks over the initramfs (its reports to the callback are answers, as many as the first answer says); the
-- second process of a fork, as a run follows one of the two;
-- what a TPM call that fails has left in its buffers (for the generator of the passphrase it is a
-- parameter), and what a search that fails has left in the name of the crypt device. The templates of the TPM keys are constants of the calls.
pub mod Base
pub mod Libc
pub mod Machine
pub mod Keyring
pub mod Crypto
pub mod Meta
pub mod Output
pub mod Cli
pub mod Common
pub mod Automount
pub mod Dmctl
pub mod Minsetup
pub mod Subprocess
pub mod Cryptsetup
pub mod Securememory
pub mod Tpm
pub mod Boot
mod Tests
